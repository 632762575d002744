-- ===== src/Telnet/Writing.antt =====
-- What `writeBytes` has put on the wire when it returns.
use tuicast.Prelude.{
  ℕ, zero, suc, ◌≢◌, ◌≤◌, Option, none, List, [], ◌∷◌, ◌++◌, ◌≡◌, refl, sym, ap, ◌∙◌, inl, inr,
  ◌==◌, Bool-cases, Option-cases, length, take, Bytes, arith, append_assoc, append-nil, length-drop,
  take-append-drop,
}
use tuicast.Telnet.Stream.{
  WriteOutcome, Conn, Stream, StreamError, send, conn_write_with, write_loop, write_bytes,
}

-- `sent` is `before` and a part of `bytes` from the front, all of it if there is no error.
pub record Delivered (before bytes sent : Bytes) (e : Option StreamError) : Type 0 where
  pub out : Bytes
  pub unsent : Bytes
  pub splits : bytes ≡ out ++ unsent
  pub prefix : sent ≡ before ++ out
  pub whole : e ≡ none → unsent ≡ []

-- One `conn.Write` puts out what it does not give back.
conn_write-Delivered :
    (ws : List WriteOutcome) (c : Conn) (bytes : Bytes)
    → let (left, _, c') = conn_write_with ws c bytes in
      (out : Bytes) × (bytes ≡ out ++ left) × (c'.sent ≡ c.sent ++ out)
unfolding conn_write_with
conn_write-Delivered [] c bytes = (bytes, sym (append-nil bytes), refl)
conn_write-Delivered (w ∷ ws) c bytes =
    (take w.taken bytes, sym (take-append-drop w.taken bytes), refl)

length-conn_write :
    (ws : List WriteOutcome) (c : Conn) (bytes : Bytes)
    → length (conn_write_with ws c bytes).0 ≤ length bytes
unfolding conn_write_with
length-conn_write [] c bytes = omega arith
length-conn_write (w ∷ ws) c bytes = omega (arith, length-drop w.taken bytes)

Delivered-after :
    {before mid left bytes sent : Bytes} {e : Option StreamError} (out : Bytes)
    → bytes ≡ out ++ left
    → mid ≡ before ++ out
    → Delivered mid left sent e
    → Delivered before bytes sent e
Delivered-after {before} out split mid d = record {
  out = out ++ d.out;
  unsent = d.unsent;
  splits = split ∙ rw d.splits (sym (append_assoc out d.out d.unsent));
  prefix = d.prefix ∙ rw mid (append_assoc before out d.out);
  whole = d.whole;
}

-- The error of a round that stops: nothing more is put out.
Delivered-stop :
    {before bytes sent : Bytes} {e : Option StreamError} (out left : Bytes)
    → bytes ≡ out ++ left
    → sent ≡ before ++ out
    → e ≢ none
    → Delivered before bytes sent e
Delivered-stop out left split sent ne = record {
  out = out;
  unsent = left;
  splits = split;
  prefix = sent;
  whole = λ p. absurd (ne p);
}

write_loop-Delivered :
    (fuel : ℕ) (c : Conn) (bytes : Bytes)
    → length bytes ≤ fuel
    → Delivered c.sent bytes (write_loop fuel c bytes).0.sent (write_loop fuel c bytes).1
unfolding write_loop
write_loop-Delivered fuel c [] h = record {
  out = [];
  unsent = [];
  splits = refl;
  prefix = sym (append-nil c.sent);
  whole = λ _. refl;
}
write_loop-Delivered zero c (b ∷ bytes) h = absurd (omega arith)
write_loop-Delivered (suc fuel) c (b ∷ bytes) h =
    let w = conn_write_with c.writes c (b ∷ bytes) in
    let (out, split, sent) = conn_write-Delivered c.writes c (b ∷ bytes) in
    elim (Option-cases w.1) [
      | inr (x, failed) ↦ rw (failed, write_loop) (Delivered-stop out w.0 split sent (λ p. cc))
      | inl fine ↦
          rw (fine, write_loop)
            (elim (Bool-cases (length w.0 == suc (length bytes))) [
              | inl stuck ↦ rw stuck (Delivered-stop out w.0 split sent (λ p. cc))
              | inr moved ↦ rw moved (
                  Delivered-after out split sent (
                    write_loop-Delivered fuel w.2 w.0
                      (ground (arith, length-conn_write c.writes c (b ∷ bytes)))))
            ])
    ]

-- `writeBytes` puts out a prefix of its bytes, in order and behind what was sent before; without an
-- error it puts out all of them. It changes nothing but the connection.
pub write_bytes-Delivered :
    (bytes : Bytes) (s : Stream)
    → let (s', e) = write_bytes bytes s in
      Delivered s.conn.sent bytes s'.conn.sent e × (s' ≡ record s { conn = s'.conn })
unfolding write_bytes
write_bytes-Delivered bytes s =
    (write_loop-Delivered (length bytes) s.conn bytes (omega arith), refl)

-- On a connection that takes every write whole.
pub write_bytes_quiet :
    (bytes : Bytes) (s : Stream)
    → s.conn.writes ≡ []
    → write_bytes bytes s ≡ (record s { conn = send (s.conn) bytes }, none)
unfolding write_bytes write_loop conn_write_with
write_bytes_quiet [] s h =
    ap (λ b. (record s { conn = record (s.conn) { sent = b } }, none))
      (sym (append-nil s.conn.sent))
write_bytes_quiet (b ∷ bytes) s h = ground arith

-- Without an error every byte is out.
pub write_bytes_ok :
    (bytes : Bytes) (s : Stream)
    → (write_bytes bytes s).1 ≡ none
    → (write_bytes bytes s).0.conn.sent ≡ s.conn.sent ++ bytes
write_bytes_ok bytes s h =
    let d = (write_bytes-Delivered bytes s).0 in
    d.prefix ∙ ap (◌++◌ s.conn.sent) (sym (d.splits ∙ rw (d.whole h) (append-nil d.out)))
