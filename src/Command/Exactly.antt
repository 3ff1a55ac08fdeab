-- ===== src/Command/Exactly.antt =====
-- Every command is applied once, whatever requests and replies are lost
-- (proto/rl_sdk/include/rl_sdk/session.h, proto/rl_sdk/include/rl_sdk/server_command.h).
use rl_aiserver.Common.{
  ◌≡◌, ◌⊎◌, inl, inr, sym, subst, ap, ap₂, ◌∙◌, Bool, false, Option, arith, List, [], ◌∷◌, ◌++◌,
  add_u64, if◌then◌else◌,
}
use mathlib.Core.List.{append-nil}
use rl_aiserver.Common.Int.{ℤ}
use rl_aiserver.Command.Types.{CommandIdentity, CommandReply, Session, Wire, IsRoundTrip}
use rl_aiserver.Command.Server.{CommandCheck, proceeds, replayed, rejected, touch}
use rl_aiserver.Command.Replay.{serve_replay}
use rl_aiserver.Command.Client.{
  Cursor, fill_command, command_accepted, is_rejection, settle, CommandOutcome,
}
use rl_aiserver.Command.Network.{
  Delivery, request_lost, reply_lost, heard, World, Turn, served, after_server, after_client,
  delivered, turn, run,
}
use rl_aiserver.Command.Fresh.{IsWindow, Kept, refuses, applies, serve-Fresh}
use rl_aiserver.Command.Settled.{Settled, accepts, pauses, concludes, gives_up, settle-Settled}

module _ {Request Body Stored : Type 0} (w : Wire Request Body Stored) where
  -- The client's command is the one after the last of the server.
  IsSynced : World w → Type 0
  IsSynced v =
      IsWindow v.session
      × (v.cursor.next_sequence ≡ add_u64 v.session.last_command_sequence 1)
      × (v.committed ≡ v.accepted)

  -- The server committed the client's command, and the client did not hear of it.
  IsAhead : World w → Type 0
  IsAhead v =
      Kept w v.session (fill_command v.cursor) v.current
      × (v.committed ≡ v.accepted ++ (v.current ∷ []))

module _ {Request Body Stored : Type 0} (w : Wire Request Body Stored) where
  Agrees : World w → Type 0
  Agrees v = IsSynced w v ⊎ IsAhead w v

  client_ahead :
      (v : World w) (t : Turn w) (r : CommandReply)
      → is_rejection r.result ≡ false
      → IsAhead w v
      → {o : Cursor × Option CommandOutcome} → Settled v.cursor r o
      → Agrees (after_client w v t o)
  unfolding after_client IsAhead IsSynced Agrees
  client_ahead v t r h (s, e) (accepts a) = inl (s.window, ap (λ n. add_u64 n 1) s.last, e)
  client_ahead v t r h a pauses = inr a
  client_ahead v t r h a (concludes c) = absurd (ground (arith, c, h))
  client_ahead v t r h a gives_up = inr a

  client_synced :
      (v : World w) (t : Turn w) (r : CommandReply)
      → command_accepted r ≡ false
      → IsSynced w v
      → {o : Cursor × Option CommandOutcome} → Settled v.cursor r o
      → Agrees (after_client w v t o)
  unfolding after_client IsAhead IsSynced Agrees
  client_synced v t r h a (accepts c) = absurd (ground (arith, c, h))
  client_synced v t r h a pauses = inl a
  client_synced v t r h a (concludes c) = inl a
  client_synced v t r h a gives_up = inl a

  delivered_lem :
      (d : Delivery) (u v x : World w)
      → Agrees u
      → Agrees v
      → Agrees x
      → Agrees (delivered w d u v x)
  delivered_lem request_lost u v x p q r = p
  delivered_lem reply_lost u v x p q r = q
  delivered_lem heard u v x p q r = r

  -- A round in which the handler commits nothing and at most notes the time.
  kept :
      (v : World w) (t : Turn w) (k : CommandCheck)
      → (served w v t).committed ≡ false
      → (served w v t).session ≡ touch v.session t.now k
      → after_server w v t ≡ record v { session = touch v.session t.now k }
  unfolding after_server
  kept v t k n e =
      ap₂
        (λ s (b : Bool). record v {
          session = s;
          committed = v.committed ++ (if b then v.current ∷ [] else []);
        })
        e n
      ∙ ap (λ l. record v { session = touch v.session t.now k; committed = l })
          (append-nil v.committed)

  touch-IsSynced :
      (v : World w) (now : ℤ) (k : CommandCheck)
      → IsSynced w v
      → IsSynced w (record v { session = touch v.session now k })
  unfolding IsSynced
  touch-IsSynced v now proceeds h = h
  touch-IsSynced v now replayed h = h
  touch-IsSynced v now rejected h = h

  answer : World w → Turn w → CommandReply
  answer v t = (served w v t).response.reply

  settled :
      (v : World w) (t : Turn w)
      → Settled v.cursor (answer v t) (settle v.cursor (answer v t) t.delay t.is_valid)
  settled v t = settle-Settled v.cursor (answer v t) t.delay t.is_valid

  turn_synced : IsRoundTrip w → (v : World w) (t : Turn w) → IsSynced w v → Agrees (turn w v t)
  unfolding turn after_server IsSynced IsAhead Agrees answer settled
  turn_synced i v t s =
      elim (serve-Fresh w i v.session (fill_command v.cursor) v.current t.blank t.now t.decision s.0
        s.1) [
          | refuses k n e f ↦
              let same : IsSynced w (after_server w v t) =
                subst (IsSynced w) (sym (kept v t k n e)) (touch-IsSynced v t.now k s) in
              delivered_lem t.delivery v (after_server w v t) _ (inl s) (inl same)
                (client_synced (after_server w v t) t (answer v t) f same (settled v t))
          | applies n e f ↦
              let ahead : IsAhead w (after_server w v t) =
                (e, ap₂ (λ l (b : Bool). l ++ (if b then v.current ∷ [] else [])) s.2 n) in
              delivered_lem t.delivery v (after_server w v t) _ (inl s) (inr ahead)
                (client_ahead (after_server w v t) t (answer v t) f ahead (settled v t))
        ]

  touch-Kept :
      (s : Session Stored) (c : CommandIdentity) (q : Request) (now : ℤ)
      → Kept w s c q
      → Kept w (record s { last_valid_client_activity_unix_ms = now }) c q
  touch-Kept s c q now k = record {
    window = k.window;
    last = k.last;
    is_replay = k.is_replay;
    stored = k.stored;
    is_stored = k.is_stored;
  }

  turn_ahead : IsRoundTrip w → (v : World w) (t : Turn w) → IsAhead w v → Agrees (turn w v t)
  unfolding turn after_server IsAhead Agrees answer settled
  turn_ahead i v t a =
      let e =
        serve_replay w i v.session (fill_command v.cursor) v.current t.blank a.0.stored t.now
          t.decision a.0.is_replay a.0.is_stored in
      let same : IsAhead w (after_server w v t) =
        subst (IsAhead w)
          (sym (kept v t replayed (ap (λ r. r.committed) e) (ap (λ r. r.session) e)))
          (touch-Kept v.session (fill_command v.cursor) v.current t.now a.0, a.1) in
      delivered_lem t.delivery v (after_server w v t) _ (inr a) (inr same) (
        client_ahead (after_server w v t) t (answer v t)
          (ap (λ r. is_rejection r.response.reply.result) e) same (settled v t))

  run-Agrees : IsRoundTrip w → (v : World w) (ts : List (Turn w)) → Agrees v → Agrees (run w v ts)
  unfolding run Agrees
  run-Agrees i v [] a = a
  run-Agrees i v (t ∷ ts) (inl s) = run-Agrees i (turn w v t) ts (turn_synced i v t s)
  run-Agrees i v (t ∷ ts) (inr s) = run-Agrees i (turn w v t) ts (turn_ahead i v t s)

  -- For a serialization that parses back, from a world whose client is at the command after the
  -- last of the server, which is below 2^64 and which the replay window holds when it holds any,
  -- and with equal records: after any rounds, whatever requests and replies were lost, the
  -- commands that the server committed are, in order, those that the client accepted, with at
  -- most the client's current one more.
  pub exactly_once :
      IsRoundTrip w
      → (v : World w) (ts : List (Turn w)) → IsWindow v.session
      → v.cursor.next_sequence ≡ add_u64 v.session.last_command_sequence 1
      → v.committed ≡ v.accepted
      → let k = run w v ts in
        (k.committed ≡ k.accepted) ⊎ (k.committed ≡ k.accepted ++ (k.current ∷ []))
  unfolding Agrees IsSynced IsAhead
  exactly_once i v ts h n e = elim (run-Agrees i v ts (inl (h, n, e))) [
    | inl a ↦ inl a.2
    | inr a ↦ inr a.1
  ]
