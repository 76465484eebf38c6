-- ===== src/Registry/Valid.antt =====
-- The invariant of the registry (scgrep/replay_registry.py).
use scgrep.Prelude.{
  ℕ, zero, suc, ◌≤◌, ◌<◌, ◌≡◌, ◌≢◌, refl, false, Option, none, some, List, [], ◌∷◌, ◌++◌, arith,
  length, length-append, set,
}
use scgrep.Text.{Text, text_eq}
use scgrep.Text.Laws.{text_eq_iff}
use scgrep.Libs.{Libs}
use scgrep.Registry.{
  Registry, ReplayCounter, new_counter, record_arrival, assign, pop, register, unregister, snapshot,
  route, record_at, handle_replay,
}

-- No channel of the list has this address.
abbrev pub Fresh : ℕ → List (Text × ℕ) → Type 0
Fresh c [] = Unit {0}
Fresh c ((k, d) ∷ rest) = (d ≢ c) × Fresh c rest

abbrev pub Below : ℕ → List (Text × ℕ) → Type 0
Below n [] = Unit {0}
Below n ((k, d) ∷ rest) = (d < n) × Below n rest

abbrev pub Apart : List (Text × ℕ) → Type 0
Apart [] = Unit {0}
Apart ((k, d) ∷ rest) = Fresh d rest × Apart rest

abbrev pub NoChannel : Text → List (Text × ℕ) → Type 0
NoChannel k [] = Unit {0}
NoChannel k ((j, d) ∷ rest) = (text_eq j k ≡ false) × NoChannel k rest

-- The keys of a dict are distinct.
abbrev pub Keyed : List (Text × ℕ) → Type 0
Keyed [] = Unit {0}
Keyed ((k, d) ∷ rest) = NoChannel k rest × Keyed rest

-- Every address in use is that of a counter, no two channels share one, and no channel stands twice.
pub record IsValid (g : Registry) : Type 0 where
  pub below : Below (length g.counters) g.active
  pub apart : Apart g.active
  pub keyed : Keyed g.active

Below-Fresh : (n : ℕ) (xs : List (Text × ℕ)) → Below n xs → Fresh n xs
Below-Fresh n [] b = tt
Below-Fresh n ((k, d) ∷ xs) b = ((λ e. omega arith), Below-Fresh n xs b.1)

Below-mono : (m n : ℕ) (xs : List (Text × ℕ)) → m ≤ n → Below m xs → Below n xs
Below-mono m n [] h b = tt
Below-mono m n ((k, d) ∷ xs) h b = (omega arith, Below-mono m n xs h b.1)

assign-Below :
    (k : Text) (c n : ℕ) (xs : List (Text × ℕ)) → c < n → Below n xs → Below n (assign k c xs)
unfolding assign
assign-Below k c n [] h b = (h, tt)
assign-Below k c n ((j, d) ∷ xs) h b = ground (arith, assign-Below k c n xs h b.1)

assign-Fresh :
    (k : Text) (c d : ℕ) (xs : List (Text × ℕ)) → c ≢ d → Fresh d xs → Fresh d (assign k c xs)
unfolding assign
assign-Fresh k c d [] h f = (h, tt)
assign-Fresh k c d ((j, e) ∷ xs) h f = ground (arith, assign-Fresh k c d xs h f.1)

assign-Apart :
    (k : Text) (c : ℕ) (xs : List (Text × ℕ)) → Fresh c xs → Apart xs → Apart (assign k c xs)
unfolding assign
assign-Apart k c [] f a = (tt, tt)
assign-Apart k c ((j, d) ∷ xs) f a =
    ground (arith, assign-Apart k c xs f.1 a.1, assign-Fresh k c d xs)

assign-NoChannel :
    (k : Text) (c : ℕ) (j : Text) (xs : List (Text × ℕ))
    → text_eq k j ≡ false
    → NoChannel j xs
    → NoChannel j (assign k c xs)
unfolding assign
assign-NoChannel k c j [] h n = (h, tt)
assign-NoChannel k c j ((i, d) ∷ xs) h n = ground (arith, assign-NoChannel k c j xs h n.1)

pub assign-Keyed : (k : Text) (c : ℕ) (xs : List (Text × ℕ)) → Keyed xs → Keyed (assign k c xs)
unfolding assign
assign-Keyed k c [] h = (tt, tt)
assign-Keyed k c ((j, d) ∷ xs) h =
    ground
      (arith, assign-Keyed k c xs h.1, assign-NoChannel k c j xs, text_eq_iff k j, text_eq_iff j k)

pop-Below : (k : Text) (n : ℕ) (xs : List (Text × ℕ)) → Below n xs → Below n (pop k xs)
unfolding pop
pop-Below k n [] b = tt
pop-Below k n ((j, d) ∷ xs) b = ground (arith, pop-Below k n xs b.1)

pop-Fresh : (k : Text) (c : ℕ) (xs : List (Text × ℕ)) → Fresh c xs → Fresh c (pop k xs)
unfolding pop
pop-Fresh k c [] f = tt
pop-Fresh k c ((j, d) ∷ xs) f = ground (arith, pop-Fresh k c xs f.1)

pop-Apart : (k : Text) (xs : List (Text × ℕ)) → Apart xs → Apart (pop k xs)
unfolding pop
pop-Apart k [] a = tt
pop-Apart k ((j, d) ∷ xs) a = ground (arith, pop-Apart k xs a.1, pop-Fresh k d xs a.0)

pop-NoChannel : (k j : Text) (xs : List (Text × ℕ)) → NoChannel j xs → NoChannel j (pop k xs)
unfolding pop
pop-NoChannel k j [] n = tt
pop-NoChannel k j ((i, d) ∷ xs) n = ground (arith, pop-NoChannel k j xs n.1)

pop-Keyed : (k : Text) (xs : List (Text × ℕ)) → Keyed xs → Keyed (pop k xs)
unfolding pop
pop-Keyed k [] h = tt
pop-Keyed k ((j, d) ∷ xs) h = ground (arith, pop-Keyed k xs h.1, pop-NoChannel k j xs h.0)

pub length-set :
    (xs : List ReplayCounter) (i : ℕ) (v : ReplayCounter) → length (set xs i v) ≡ length xs
length-set [] i v = refl
length-set (x ∷ xs) zero v = refl
length-set (x ∷ xs) (suc i) v = omega (arith, length-set xs i v)

register-IsValid : (g : Registry) (channel : Text) → IsValid g → IsValid (register g channel).0
unfolding register
register-IsValid g channel v =
    let n = length g.counters in
    let grown = length-append {0} g.counters (new_counter ∷ []) in
    record {
      below =
          assign-Below channel n (length (g.counters ++ (new_counter ∷ []))) g.active
            (omega (arith, grown))
            (Below-mono n (length (g.counters ++ (new_counter ∷ []))) g.active
              (omega (arith, grown)) v.below);
      apart = assign-Apart channel n g.active (Below-Fresh n g.active v.below) v.apart;
      keyed = assign-Keyed channel n g.active v.keyed;
    }

unregister-IsValid : (g : Registry) (channel : Text) → IsValid g → IsValid (unregister g channel)
unfolding unregister
unregister-IsValid g channel v = record {
  below = pop-Below channel (length g.counters) g.active v.below;
  apart = pop-Apart channel g.active v.apart;
  keyed = pop-Keyed channel g.active v.keyed;
}

record_at-IsValid :
    (g : Registry) (o : Option ℕ) (now : ℕ) → IsValid g → IsValid (record_at g o now)
unfolding record_at
record_at-IsValid g none now v = v
record_at-IsValid g (some c) now v = record {
  below =
      Below-mono (length g.counters) (length (set g.counters c (record_arrival (snapshot g c) now)))
        g.active (omega (arith, length-set g.counters c (record_arrival (snapshot g c) now)))
        v.below;
  apart = v.apart;
  keyed = v.keyed;
}

-- Registering and unregistering a channel and routing a message keep a valid registry valid.
pub registry-IsValid :
    (libs : Libs) (g : Registry) (channel topic : Text) (now : ℕ)
    → IsValid g
    → IsValid (register g channel).0
      × IsValid (unregister g channel)
      × IsValid (handle_replay libs g now topic)
unfolding handle_replay
registry-IsValid libs g channel topic now v = (
  register-IsValid g channel v,
  unregister-IsValid g channel v,
  record_at-IsValid g (route libs g.active topic) now v,
)
