-- ===== src/Commands/Refine.antt =====
-- A sorted set of the store (scgrep/redis_store.py) under a sequence of commands, against the times
-- that its ids were given last.
use scgrep.Prelude.{
  ◌+◌, ℤ, ◌≡◌, refl, inl, inr, Option, none, some, List, [], ◌∷◌, All, arith, Option-cases,
}
use scgrep.Text.{Text}
use scgrep.Libs.{Libs}
use scgrep.Redis.{Redis, hit}
use scgrep.Store.{RedisStore}
use scgrep.Commands.{Command, Entry, run_command, run_commands, entries}
use scgrep.Commands.Latest.{moved, stale, latest_tally, stale-moved, stale-none, stale_same}

module _ (libs : Libs) (r : Redis) (s : RedisStore) where
  -- The commands that are admitted change the set at this key as their entries say.
  pub record Follows (key : Text) (a b : ℤ) (f : Command → Option Entry)
      (admitted : Command → Type 0) : Type 0 where
    pub score_law :
        (db : r.Db) (x : Command) (m : Text)
        → admitted x
        → r.zscore (run_command libs r s db x) key m ≡ moved (f x) (r.zscore db key) m
    pub added_law :
        (db : r.Db) (x : Command) (i : Text) (t : ℤ)
        → admitted x
        → f x ≡ some (i, t)
        → r.zcount (run_command libs r s db x) key a b + hit a b (r.zscore db key i)
          ≡ r.zcount db key a b + hit a b (some t)
    pub other_law :
        (db : r.Db) (x : Command)
        → admitted x
        → f x ≡ none
        → r.zcount (run_command libs r s db x) key a b ≡ r.zcount db key a b

  module _ (key : Text) (a b : ℤ) (f : Command → Option Entry) (admitted : Command → Type 0)
      (law : Follows key a b f admitted) where
    zcount-run_commands :
        (xs : List Command) (db : r.Db)
        → All admitted xs
        → r.zcount (run_commands libs r s db xs) key a b
            + stale a b (r.zscore db key) [] (entries f xs)
          ≡ r.zcount db key a b + latest_tally a b (entries f xs)
    unfolding run_commands entries stale latest_tally
    zcount-run_commands [] db h = refl
    zcount-run_commands (x ∷ xs) db h =
        let db' = run_command libs r s db x in
        let rest = zcount-run_commands xs db' h.1 in
        elim (Option-cases (f x)) [
          | inl e ↦ ground (
            arith,
            e,
            rest,
            law.other_law db x h.0 e,
            stale_same a b (r.zscore db' key) (r.zscore db key) [] [] (entries f xs) (λ i. refl)
                (λ i n. ground (arith, e, law.score_law db x i h.0)),
          )
          | inr ((i, t), e) ↦ ground (
            arith,
            e,
            rest,
            law.added_law db x i t h.0 e,
            stale-moved a b (r.zscore db key) (r.zscore db' key) i t (entries f xs)
                (λ m. ground (arith, e, law.score_law db x m h.0)),
          )
        ]

    -- From an empty set on, the set counts the ids by their last times.
    pub zcount-fresh :
        (xs : List Command) (db : r.Db)
        → All admitted xs
        → r.zcount db key a b ≡ 0
        → ((m : Text) → r.zscore db key m ≡ none)
        → r.zcount (run_commands libs r s db xs) key a b ≡ latest_tally a b (entries f xs)
    zcount-fresh xs db h k n = omega (
      arith,
      k,
      zcount-run_commands xs db h,
      stale-none a b (r.zscore db key) [] (entries f xs) n,
    )
