-- ===== src/Config/Errors.antt =====
-- The configurations that scgrep/config.py refuses.
use scgrep.Prelude.{◌≡◌, refl, true, false, List, [], ◌∷◌, arith, any, is_empty}
use scgrep.Text.{Text, codes, strip}
use scgrep.Result.{err}
use scgrep.Libs.{Libs}
use scgrep.Config.{
  config_error, wildcard_topics, Env, split, is_wild, wild_topics, read_topics, get_env, from_env,
}

wild_topics-any : (ts : List Text) → any is_wild ts ≡ true → is_empty (wild_topics ts) ≡ false
unfolding wild_topics
wild_topics-any [] h = absurd (cc)
wild_topics-any (t ∷ ts) h = ground (arith, wild_topics-any ts)

any-nonempty : (ts : List Text) → any is_wild ts ≡ true → is_empty ts ≡ false
any-nonempty [] h = absurd (cc)
any-nonempty (t ∷ ts) h = refl

-- With a sensor centre, a topic that holds `+` or `*` is refused before any broker is looked at,
-- and the error names the topics that hold one.
pub from_env_wildcards :
    (libs : Libs) (env : Env) (id : Text)
    → let topics = split (get_env env (codes "SUBSCRIPTION_TOPICS") []) in
      is_empty (strip (get_env env (codes "SENSOR_CENTRE_ID") [])) ≡ false
      → any is_wild topics ≡ true
      → from_env libs env id ≡ err (config_error (wildcard_topics (wild_topics topics)))
unfolding from_env read_topics
from_env_wildcards libs env id c w =
    let topics = split (get_env env (codes "SUBSCRIPTION_TOPICS") []) in
    ground (arith, c, w, wild_topics-any topics w, any-nonempty topics w)
