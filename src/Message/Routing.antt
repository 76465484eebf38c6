-- ===== src/Message/Routing.antt =====
-- on_message of scgrep/mqtt_client.py, over the store and the registry.
use scgrep.Prelude.{
  ℕ, ◌<◌, ℤ, ◌≡◌, refl, ap, inl, inr, true, false, Option, none, some, [], arith, ltb, length, drop,
  Bool-cases,
}
use scgrep.Text.{Text, codes, starts_with, split_on, join, has_char}
use scgrep.Text.Split.{split_on-cons, join-split_on}
use scgrep.Result.{Result, ok, err}
use scgrep.Libs.{Libs}
use scgrep.Util.{Fault}
use scgrep.Redis.{Redis}
use scgrep.Store.{
  RedisStore, store_message, store_replay_message, count_messages, count_replay_messages,
  count_sync_messages,
}
use scgrep.Store.Isolation.{baseline_isolated, replay_isolated}
use scgrep.Registry.{handle_replay}
use scgrep.Message.{State, parse_message, with_message, part, handle_replay_message, on_message}
use scgrep.Message.Topic.{replay_topic, split_on-replay_topic}

starts_with-replay_topic :
    (c sub original : Text) → starts_with (replay_topic c sub original) (codes "replay/") ≡ true
unfolding starts_with
starts_with-replay_topic c sub original = refl

module _ (libs : Libs) (r : Redis) (s : RedisStore) where
  -- A replayed message whose payload parses is recorded in the registry under its whole topic, and
  -- stored for the centre and the original topic that its topic was made from, slashes in the
  -- original topic included, if the centre and the subscriber hold no slash.
  pub on_message-replay_topic :
      (st : State libs r s) (now : ℤ) (mono : ℕ) (c sub original payload msg_id time_value : Text)
      → has_char b'/' c ≡ false
      → has_char b'/' sub ≡ false
      → parse_message libs payload ≡ ok (some (msg_id, time_value))
      → let topic = replay_topic c sub original in
        on_message libs r s st now mono topic payload ≡ (
          record {
            db = (store_replay_message libs r s st.db c msg_id time_value original).0;
            registry = handle_replay libs st.registry mono topic;
          },
          none,
        )
  unfolding on_message
  on_message-replay_topic st now mono c sub original payload msg_id time_value h k p =
      let (head, rest, e) = split_on-cons b'/' original in
      ground (
        arith,
        p,
        starts_with-replay_topic c sub original,
        split_on-replay_topic c sub original h k,
        e,
        ap (join b'/') e,
        join-split_on b'/' original,
      )

  -- What a write leaves alone, the callback leaves alone.
  with_message_keeps :
      (count : r.Db → ℕ) (st : State libs r s) (m : Result Fault (Option (Text × Text)))
      (write : Text → Text → r.Db)
      → ((i t : Text) → count (write i t) ≡ count st.db)
      → (count (with_message libs r s st m write).0.db ≡ count st.db)
        × ((with_message libs r s st m write).0.registry ≡ st.registry)
  with_message_keeps count st (err e) write h = (refl, refl)
  with_message_keeps count st (ok none) write h = (refl, refl)
  with_message_keeps count st (ok (some (i, t))) write h = (h i t, refl)

  handle_replay_keeps :
      (count : r.Db → ℕ) (st : State libs r s) (mono : ℕ) (topic payload : Text)
      → ((c i t o : Text) → count (store_replay_message libs r s st.db c i t o).0 ≡ count st.db)
      → count (handle_replay_message libs r s st mono topic payload).0.db ≡ count st.db
  unfolding handle_replay_message
  handle_replay_keeps count st mono topic payload h =
      let parts = split_on b'/' topic in
      let st' = record st { registry = handle_replay libs st.registry mono topic } in
      elim (Bool-cases (ltb (length parts) 6)) [
        | inl y ↦ ground (arith, y)
        | inr n ↦
            rw (n, handle_replay_message)
              (with_message_keeps count st' (parse_message libs payload)
                (λ i t.
                  (store_replay_message libs r s st.db (part libs r s parts 3) i t
                    (join b'/' (drop 5 parts))).0)
                (λ i t. h (part libs r s parts 3) i t (join b'/' (drop 5 parts)))).0
      ]

  module _ (expires : 0 < s.expiry) (st : State libs r s) (now : ℤ) (mono : ℕ)
      (topic payload : Text) where
    -- With a positive expiry, a replayed message leaves every baseline as it is, whatever the rest
    -- of its topic and its payload hold.
    pub count_messages-on_message_replay :
        (q : Text) (a b : ℤ)
        → starts_with topic (codes "replay/") ≡ true
        → count_messages libs r s (on_message libs r s st now mono topic payload).0.db q a b
          ≡ count_messages libs r s st.db q a b
    unfolding on_message
    count_messages-on_message_replay q a b h =
        rw (h, on_message)
          (handle_replay_keeps (λ db. count_messages libs r s db q a b) st mono topic payload
            (λ c i t o. (baseline_isolated libs r s expires st.db q c c i t o [] a b).0))

    -- With a positive expiry, a message whose topic is no replay topic leaves the registry and
    -- every count of replayed and of fetched messages as they are, whatever its payload holds.
    pub on_message_isolated :
        (c q : Text) (a b : ℤ)
        → starts_with topic (codes "replay/") ≡ false
        → let after = (on_message libs r s st now mono topic payload).0 in
          (after.registry ≡ st.registry)
          × (count_replay_messages libs r s after.db c q a b
              ≡ count_replay_messages libs r s st.db c q a b)
          × (count_sync_messages libs r s after.db c q a b
              ≡ count_sync_messages libs r s st.db c q a b)
    unfolding on_message
    on_message_isolated c q a b h =
        let m = parse_message libs payload in
        let write = λ (i t : Text). (store_message libs r s st.db now i t topic).0 in
        let isolated =
          λ (i t : Text). replay_isolated libs r s expires st.db now q c c c i t topic [] a b in
        let replayed =
          with_message_keeps (λ db. count_replay_messages libs r s db c q a b) st m write
            (λ i t. (isolated i t).0) in
        let fetched =
          with_message_keeps (λ db. count_sync_messages libs r s db c q a b) st m write
            (λ i t. (isolated i t).1) in
        rw (h, on_message) (replayed.1, replayed.0, fetched.0)
