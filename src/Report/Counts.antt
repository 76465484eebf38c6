-- ===== src/Report/Counts.antt =====
-- The ids that scan (scripts/replay_loss_report.py) keeps for a minute.
use scgrep.Prelude.{
  ℕ, suc, ◌+◌, ℤ, eqb_ℤ, Bool, true, not, ◌&&◌, ◌≡◌, refl, Option, none, some, List, [], ◌∷◌, arith,
  any, length, if◌then◌else◌, Option-cases, inl, inr,
}
use scgrep.Text.{Text, text_eq, contains}
use scgrep.Libs.{Libs}
use scgrep.Report.{Scan, Buckets, parse_pubtime, floor_minute, add_id, add_at, ids_at, add_time}
use scgrep.Report.Lines.{kind_text}
use scgrep.Report.Log.{Logged, live, replay, note, notes}

-- A minute and an id that were logged for it.
abbrev pub Entry : Type 0
Entry = ℤ × Text

abbrev pub entry_if : Bool → Option ℤ → Text → Option Entry
entry_if test none msg_id = none
entry_if test (some dt) msg_id = if test then some (floor_minute dt, msg_id) else none

-- A broker message whose topic has the searched text, and whose time parses.
abbrev pub live_entry : Libs → Text → Logged → Option Entry
live_entry libs topic (live t i v) = entry_if (contains topic t) (parse_pubtime libs v) i
live_entry libs topic (replay k c t i v) = none

-- A message replayed in one of the ways.
abbrev pub replay_entry : Libs → Text → List Text → Logged → Option Entry
replay_entry libs topic kinds (live t i v) = none
replay_entry libs topic kinds (replay k c t i v) =
    entry_if (any (text_eq (kind_text k)) kinds && contains topic t) (parse_pubtime libs v) i

abbrev pub entries : (Logged → Option Entry) → List (Text × Text × Logged) → List Entry
entries f [] = []
entries f (x ∷ xs) = let rest = entries f xs in elim (f x.2) [ none ↦ rest | some e ↦ e ∷ rest ]

-- How many ids a minute has besides those seen, each once.
pub distinct_at : ℤ → List Text → List Entry → ℕ
distinct_at m seen [] = 0
distinct_at m seen ((k, i) ∷ es) =
    let fresh = distinct_at m (i ∷ seen) es in
    let other = distinct_at m seen es in
    if eqb_ℤ k m && not (any (text_eq i) seen) then suc fresh else other

eqb_refl : (a : ℤ) → eqb_ℤ a a ≡ true
eqb_refl a = ground arith

ids_at-add_at :
    (m k : ℤ) (i : Text) (bs : Buckets)
    → ids_at m (add_at k i bs) ≡ (if eqb_ℤ k m then add_id i (ids_at m bs) else ids_at m bs)
unfolding ids_at add_at
ids_at-add_at m k i [] = ground arith
ids_at-add_at m k i ((j, ids) ∷ bs) = ground (arith, ids_at-add_at m k i bs)

-- What a step adds to a minute.
abbrev pub grown : ℤ → List Text → Option Entry → List Text
grown m ids none = ids
grown m ids (some (k, i)) = if eqb_ℤ k m then add_id i ids else ids

distinct_at-grown :
    (m : ℤ) (ids : List Text) (o : Option Entry) (es : List Entry)
    → length ids + distinct_at m ids (elim o [ none ↦ es | some e ↦ e ∷ es ])
      ≡ length (grown m ids o) + distinct_at m (grown m ids o) es
unfolding distinct_at
distinct_at-grown m ids none es = refl
distinct_at-grown m ids (some (k, i)) es = ground arith

module _ (libs : Libs) (topic : Text) (kinds : List Text) (m : ℤ) where
  add_time-grown :
      (v i : Text) (bs : Buckets)
      → ids_at m (add_time libs v i bs)
        ≡ grown m (ids_at m bs) (entry_if true (parse_pubtime libs v) i)
  unfolding add_time
  add_time-grown v i bs = elim (Option-cases (parse_pubtime libs v)) [
    | inl e ↦ ground (arith, e)
    | inr (dt, e) ↦ ground (arith, e, ids_at-add_at m (floor_minute dt) i bs)
  ]

  note-live :
      (found : Scan) (x : Logged)
      → ids_at m (note libs topic kinds found x).baseline
        ≡ grown m (ids_at m found.baseline) (live_entry libs topic x)
  unfolding note
  note-live found (live t i v) = elim (Option-cases (parse_pubtime libs v)) [
    | inl e ↦ ground (arith, e, add_time-grown v i found.baseline)
    | inr (dt, e) ↦ ground (arith, e, add_time-grown v i found.baseline)
  ]
  note-live found (replay k c t i v) = ground arith

  note-replay :
      (found : Scan) (x : Logged)
      → ids_at m (note libs topic kinds found x).replay
        ≡ grown m (ids_at m found.replay) (replay_entry libs topic kinds x)
  unfolding note
  note-replay found (live t i v) = ground arith
  note-replay found (replay k c t i v) = elim (Option-cases (parse_pubtime libs v)) [
    | inl e ↦ ground (arith, e, add_time-grown v i found.replay)
    | inr (dt, e) ↦ ground (arith, e, add_time-grown v i found.replay)
  ]

  pub length-notes :
      (found : Scan) (xs : List (Text × Text × Logged))
      → let after = notes libs topic kinds found xs in
        (length (ids_at m after.baseline)
          ≡ length (ids_at m found.baseline)
            + distinct_at m (ids_at m found.baseline) (entries (live_entry libs topic) xs))
        × (length (ids_at m after.replay)
            ≡ length (ids_at m found.replay)
              + distinct_at m (ids_at m found.replay) (entries (replay_entry libs topic kinds) xs))
  unfolding notes distinct_at
  length-notes found [] = (omega arith, omega arith)
  length-notes found (x ∷ xs) =
      let next = note libs topic kinds found x.2 in
      let (b, r) = length-notes next xs in
      (
        ground (
          arith,
          b,
          note-live found x.2,
          distinct_at-grown m (ids_at m found.baseline) (live_entry libs topic x.2)
              (entries (live_entry libs topic) xs),
        ),
        ground (
          arith,
          r,
          note-replay found x.2,
          distinct_at-grown m (ids_at m found.replay) (replay_entry libs topic kinds x.2)
              (entries (replay_entry libs topic kinds) xs),
        ),
      )
