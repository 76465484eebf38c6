-- ===== src/Redis/Window.antt =====
-- Keys, scores and half-open windows, over which the laws of the commands are stated.
use scgrep.Prelude.{ℕ, ℤ, leb_ℤ, ltb_ℤ, Bool, true, false, ◌&&◌, Option, none, some, if◌then◌else◌}
use scgrep.Text.{Text, codes}

abbrev pub msg_prefix : Text
msg_prefix = codes "scgrep:msg:"

abbrev pub is_none {ℓ} : {A : Type ℓ} → Option A → Bool
is_none none = true
is_none (some a) = false

-- start <= score < end
abbrev pub in_window : ℤ → ℤ → ℤ → Bool
in_window start end score = leb_ℤ start score && ltb_ℤ score end

-- What a member with this score, if it is there, adds to a count over [start, end).
abbrev pub hit : ℤ → ℤ → Option ℤ → ℕ
hit start end none = 0
hit start end (some score) = if in_window start end score then 1 else 0

-- What removing the scores up to a cutoff leaves of a score.
abbrev pub prune : ℤ → Option ℤ → Option ℤ
prune cutoff none = none
prune cutoff (some score) = if leb_ℤ score cutoff then none else some score

abbrev pub or_else {ℓ} : {A : Type ℓ} → Option A → A → Option A
or_else none a = some a
or_else (some b) a = some b
