-- ===== src/Message/Topic.antt =====
-- The topics of replayed messages, which on_message (scgrep/mqtt_client.py) takes apart.
use scgrep.Prelude.{◌≡◌, refl, ap, ◌∙◌, false, List, ◌∷◌, ◌++◌}
use scgrep.Text.{Text, codes, split_on, has_char}
use scgrep.Text.Split.{split_on-append}

-- replay/a/wis2/<centre-id>/<subscriber-id>/<original-topic>
abbrev pub replay_topic : Text → Text → Text → Text
replay_topic centre subscriber original =
    codes "replay/a/wis2/" ++ (centre ++ (b'/' ∷ (subscriber ++ (b'/' ∷ original))))

-- Its parts.
pub split_on-replay_topic :
    (centre subscriber original : Text)
    → has_char b'/' centre ≡ false
    → has_char b'/' subscriber ≡ false
    → split_on b'/' (replay_topic centre subscriber original)
      ≡ codes "replay" ∷ codes "a" ∷ codes "wis2" ∷ centre ∷ subscriber ∷ split_on b'/' original
split_on-replay_topic centre subscriber original h k =
    head (centre ++ (b'/' ∷ (subscriber ++ (b'/' ∷ original))))
    ∙ ap (λ (rest : List Text). codes "replay" ∷ codes "a" ∷ codes "wis2" ∷ rest)
        (split_on-append b'/' centre (subscriber ++ (b'/' ∷ original)) h
          ∙ ap (◌∷◌ centre) (split_on-append b'/' subscriber original k))
  where
    head :
        (rest : Text)
        → split_on b'/' (codes "replay/a/wis2/" ++ rest)
          ≡ codes "replay" ∷ codes "a" ∷ codes "wis2" ∷ split_on b'/' rest
    head rest = unfold split_on in refl
