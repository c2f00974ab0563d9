-- ===== src/RenterHost/Session/Steps.antt =====
-- The states that a Session goes through.
use us.Prelude.{ℕ, ◌≡◌, refl, ap, ◌∙◌, Bool, true, false, ◌||◌, List, ◌++◌, Option, none, some}
use us.RenterHost.Object.{ProtocolObject}
use us.RenterHost.Session.{
  Aead, Session, SessionError, conn_closed, Received, send, read_message, write_message,
}
use us.RenterHost.Session.Rpcs.{Entropy, is_closed, close}
use us.RenterHost.Session.Exchange.{frame}
use us.RenterHost.Session.Pulls.{IsShut, Pulls-set_err, read_message-Pulls, if-both}

module _ ⦃aead : Aead⦄ where
  -- A message is written or read, the session is closed, or bytes arrive.
  pub data Step : Session → Session → Type 1 where
    writing :
        {A : Type 0} (o : ProtocolObject A) (x : A) (entropy : Entropy) (s : Session)
        → Step s (write_message o x entropy.nonce entropy.memory s).1
    reading :
        {A : Type 0} (o : ProtocolObject A) (max_len : ℕ) {s s' : Session} {r : Received A}
        → read_message o max_len s ≡ some (r, s')
        → Step s s'
    closing : (entropy : Entropy) (s : Session) → Step s (close entropy s)
    arriving :
        (bs : List ℕ) (s : Session)
        → Step s (record s { conn = record s.conn { incoming = s.conn.incoming ++ bs } })

  pub data Steps : Session → Session → Type 1 where
    stop : (s : Session) → Steps s s
    step : {s s' s'' : Session} → Step s s' → Steps s' s'' → Steps s s''

  or_true : (b : Bool) → (b || true) ≡ true
  or_true true = refl
  or_true false = refl

  -- An error is there before the operation; it and what was written stay.
  abbrev Frozen : Session → Session → Type 0
  Frozen s s' =
      (e : SessionError) → s.err ≡ some e → (s'.err ≡ some e) × (s'.conn.outgoing ≡ s.conn.outgoing)

  write_message-Frozen :
      {A : Type 0} (o : ProtocolObject A) (x : A) (entropy : Entropy) (s : Session)
      → Frozen s (write_message o x entropy.nonce entropy.memory s).1
  unfolding write_message
  write_message-Frozen o x entropy s e h = rw (write_message, h) (h, refl)

  close-Frozen : (entropy : Entropy) (s : Session) → Frozen s (close entropy s)
  unfolding close is_closed
  close-Frozen entropy s e h =
      let closed : is_closed s ≡ true =
        ap (λ e. s.closed || elim e [ none ↦ false | some e ↦ true ]) h ∙ or_true s.closed in
      rw (close, closed) (h, refl)

  Step-Frozen : {s s' : Session} → Step s s' → Frozen s s'
  Step-Frozen (writing o x entropy s) e h = write_message-Frozen o x entropy s e h
  Step-Frozen (reading o max_len {s = s} {s' = s'} {r = r} read) e h =
      let p = read_message-Pulls o max_len s s' r read in (p.keeps e h, p.writes)
  Step-Frozen (closing entropy s) e h = close-Frozen entropy s e h
  Step-Frozen (arriving bs s) e h = (h, refl)

  -- After a session has an error, no sequence of written messages, read messages, closings and
  -- arriving bytes changes that error or writes anything to the connection.
  pub Steps-frozen :
      (s s' : Session) (e : SessionError)
      → Steps s s'
      → s.err ≡ some e
      → (s'.err ≡ some e) × (s'.conn.outgoing ≡ s.conn.outgoing)
  Steps-frozen s s' e (stop _) h = (h, refl)
  Steps-frozen s s'' e (step {s' = s'} first rest) h =
      let (kept, written) = Step-Frozen first e h in
      let (kept', written') = Steps-frozen s' s'' e rest kept in (kept', written' ∙ written)

  write_message-IsShut :
      {A : Type 0} (o : ProtocolObject A) (x : A) (entropy : Entropy) (s : Session)
      → IsShut s
      → IsShut (write_message o x entropy.nonce entropy.memory s).1
  unfolding write_message send
  write_message-IsShut o x entropy s shut =
      let out : Option SessionError → Option SessionError × Session =
        λ err. elim err [ some e ↦ (some e, s) | none ↦ send (frame o x entropy) s ] in
      elim s.err as (λ err. s.err ≡ err → IsShut (out err).1) [
        | some e ↦ λ h. shut
        | none ↦ λ h.
            if-both (λ (p : Option SessionError × Session). IsShut p.1) s.conn.is_open _ _
              (λ live e h'. absurd (cc (h, h'))) (λ dead. (Pulls-set_err conn_closed s).shuts shut)
      ]
        refl

  close-IsShut : (entropy : Entropy) (s : Session) → IsShut s → IsShut (close entropy s)
  unfolding close
  close-IsShut entropy s shut =
      if-both IsShut (is_closed s) _ _ (λ closed. shut)
        (λ running. if-both IsShut s.is_renter _ _ (λ renter e h. refl) (λ host e h. refl))

  Step-IsShut : {s s' : Session} → Step s s' → IsShut s → IsShut s'
  Step-IsShut (writing o x entropy s) shut = write_message-IsShut o x entropy s shut
  Step-IsShut (reading o max_len {s = s} {s' = s'} {r = r} read) shut =
      (read_message-Pulls o max_len s s' r read).shuts shut
  Step-IsShut (closing entropy s) shut = close-IsShut entropy s shut
  Step-IsShut (arriving bs s) shut = shut

  IsShut-Steps : {s s' : Session} → Steps s s' → IsShut s → IsShut s'
  IsShut-Steps (stop s) shut = shut
  IsShut-Steps (step first rest) shut = IsShut-Steps rest (Step-IsShut first shut)

  -- Whatever sequence of written messages, read messages, closings and arriving bytes a session
  -- without error goes through, its connection is closed if it has an error at the end.
  pub Steps-IsShut : (s s' : Session) → Steps s s' → s.err ≡ none → IsShut s'
  Steps-IsShut s s' steps fresh = IsShut-Steps steps (λ e h. absurd (cc (fresh, h)))
