-- ===== src/RenterHost/Session/Pulls.antt =====
-- What reading a message does to a Session of renterhost/session.go.
use us.Prelude.{
  ℕ, ◌+◌, ◌^◌, ◌≤◌, ◌≡◌, refl, ◌∙◌, Bool, true, false, List, [], Option, none, some, arith, inl,
  inr, ◌⊎◌, length, take, drop, length-drop, ltb, leb, if◌then◌else◌,
}
use mathlib.Core.Path.{subst}
use us.RenterHost.Buffer.{unread, read_uint64}
use us.RenterHost.Object.{ProtocolObject}
use us.RenterHost.Session.{
  Aead, Session, SessionError, conn_unexpected_eof, conn_closed, authentication_failed, Received,
  rejected, set_err, close_conn, receive, decode_text, decode_message, receive_payload,
  receive_sized, read_message, read_limit,
}

-- A session with an error has closed its connection.
abbrev pub IsShut : Session → Type 0
IsShut s = (e : SessionError) → s.err ≡ some e → s.conn.is_open ≡ false

-- At most `n` bytes are taken, nothing is written, and an error stays the first one.
pub record Pulls (n : ℕ) (s s' : Session) : Type 0 where
  pub takes : length s.conn.incoming ≤ length s'.conn.incoming + n
  pub writes : s'.conn.outgoing ≡ s.conn.outgoing
  pub keeps : (e : SessionError) → s.err ≡ some e → s'.err ≡ some e
  pub shuts : IsShut s → IsShut s'

-- What holds of both branches.
pub if-both {ℓ κ} :
    {A : Type ℓ} (P : A → Type κ) (b : Bool) (x y : A)
    → (b ≡ true → P x)
    → (b ≡ false → P y)
    → P (if b then x else y)
if-both P true x y l r = l refl
if-both P false x y l r = r refl

Pulls-same : (s : Session) → Pulls 0 s s
Pulls-same s = record { takes = omega arith; writes = refl; keeps = λ e h. h; shuts = λ h. h }

Pulls-more : {n m : ℕ} {s s' : Session} → Pulls n s s' → n ≤ m → Pulls m s s'
Pulls-more p le = record {
  takes = omega (arith, p.takes);
  writes = p.writes;
  keeps = p.keeps;
  shuts = p.shuts;
}

Pulls-trans : {n m : ℕ} {s s' s'' : Session} → Pulls n s s' → Pulls m s' s'' → Pulls (n + m) s s''
Pulls-trans p q = record {
  takes = omega (arith, p.takes, q.takes);
  writes = q.writes ∙ p.writes;
  keeps = λ e h. q.keeps e (p.keeps e h);
  shuts = λ h. q.shuts (p.shuts h);
}

pub Pulls-set_err : (e : SessionError) (s : Session) → Pulls 0 s (set_err e s)
unfolding set_err
Pulls-set_err e s =
    elim s.err
        as (λ o.
          s.err ≡ o
          → Pulls 0 s (elim o [ none ↦ record (close_conn s) { err = some e } | some first ↦ s ])) [
            | some first ↦ λ h. Pulls-same s
            | none ↦ λ h. record {
              takes = omega arith;
              writes = refl;
              keeps = λ e h'. absurd (cc (h, h'));
              shuts = λ h e h'. refl;
            }
          ]
      refl

Pulls-incoming :
    (n : ℕ) (bs : List ℕ) (s : Session)
    → length s.conn.incoming ≤ length bs + n
    → Pulls n s (record s { conn = record s.conn { incoming = bs } })
Pulls-incoming n bs s le = record { takes = le; writes = refl; keeps = λ e h. h; shuts = λ h. h }

receive-Pulls : (n : ℕ) (s : Session) → Pulls n s (receive n s).1
unfolding receive
receive-Pulls n s =
    let eof = record s { conn = record s.conn { incoming = [] } } in
    let goal : (SessionError ⊎ List ℕ) × Session → Type 0 = λ p. Pulls n s p.1 in
    if-both goal s.conn.is_open _ _
      (λ live.
        if-both goal (leb n (length s.conn.incoming)) _ _
          (λ enough.
            Pulls-incoming n (drop n s.conn.incoming) s
              (omega (arith, length-drop n s.conn.incoming)))
          (λ few.
            Pulls-more
              (Pulls-trans (Pulls-incoming n [] s (ground arith))
                (Pulls-set_err conn_unexpected_eof eof))
              (omega arith)))
      (λ dead. Pulls-more (Pulls-set_err conn_closed s) (omega arith))

module _ ⦃aead : Aead⦄ {A : Type 0} (o : ProtocolObject A) where
  decode_text-Pulls :
      (sealed : List ℕ) (text : Option (List ℕ)) (s : Session)
      → Pulls 0 s (decode_text o sealed text s).1
  unfolding decode_text
  decode_text-Pulls sealed none s = Pulls-set_err authentication_failed s
  decode_text-Pulls sealed (some text) s = Pulls-same s

  receive_payload-Pulls :
      (p : (SessionError ⊎ List ℕ) × Session) → Pulls 0 p.1 (receive_payload o p).1
  unfolding receive_payload decode_message
  receive_payload-Pulls (inl e, s) = Pulls-same s
  receive_payload-Pulls (inr payload, s) =
      decode_text-Pulls (drop aead.nonce_size payload)
        (aead.unseal (take aead.nonce_size payload) (drop aead.nonce_size payload)) s

  -- The session that a reading ends in, if it does not panic.
  abbrev pub Ends : ℕ → Session → Option (Received A × Session) → Type 0
  Ends n s none = Unit
  Ends n s (some (r, s')) = Pulls n s s'

  receive_sized-Ends :
      (max_len : ℕ) (p : (SessionError ⊎ List ℕ) × Session)
      → Ends max_len p.1 (receive_sized o max_len p)
  unfolding receive_sized
  receive_sized-Ends max_len (inl e, s) = Pulls-more (Pulls-same s) (omega arith)
  receive_sized-Ends max_len (inr prefix, s) =
      let n = (read_uint64 (unread prefix)).0 in
      let goal = Ends max_len s in
      let all : Pulls (n + 0) s (receive_payload o (receive n s)).1 =
        Pulls-trans (receive-Pulls n s) (receive_payload-Pulls (receive n s)) in
      if-both goal (ltb max_len n) _ _ (λ large. Pulls-more (Pulls-same s) (omega arith))
        (λ limited.
          if-both goal (ltb n (aead.nonce_size + aead.overhead)) _ _
            (λ small. Pulls-more (Pulls-same s) (omega arith))
            (λ fits.
              if-both goal (leb (2 ^ 63) n) _ _ (λ negative. tt)
                (λ sized. Pulls-more all (ground arith))))

  Ends-trans :
      {n : ℕ} {s s' : Session} (m : ℕ) (result : Option (Received A × Session))
      → Pulls n s s'
      → Ends m s' result
      → Ends (n + m) s result
  Ends-trans m none p q = tt
  Ends-trans m (some (r, s'')) p q = Pulls-trans p q

  read_message-Ends :
      (max_len : ℕ) (s : Session) → Ends (8 + read_limit max_len) s (read_message o max_len s)
  unfolding read_message
  read_message-Ends max_len s =
      elim s.err
        as (λ e. Ends (8 + read_limit max_len) s (elim e [
          | some e ↦ some (rejected e, s)
          | none ↦ receive_sized o (read_limit max_len) (receive 8 s)
        ])) [
          | some e ↦ Pulls-more (Pulls-same s) (omega arith)
          | none ↦
              Ends-trans (read_limit max_len) (receive_sized o (read_limit max_len) (receive 8 s))
                (receive-Pulls 8 s) (receive_sized-Ends (read_limit max_len) (receive 8 s))
        ]

  pub read_message-Pulls :
      (max_len : ℕ) (s s' : Session) (r : Received A)
      → read_message o max_len s ≡ some (r, s')
      → Pulls (8 + read_limit max_len) s s'
  read_message-Pulls max_len s s' r e =
      subst (Ends (8 + read_limit max_len) s) e (read_message-Ends max_len s)
