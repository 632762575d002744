-- ===== src/Parsing/Strings.antt =====
-- parsing/parser.go: UTF-8 text inside an OSC or DCS string.
use tuicast.Prelude.{
  ℕ, ◌-◌, ◌≤◌, ◌<◌, ◌≡◌, ◌≢◌, refl, ap, sym, ◌∙◌, Bool, true, false, ◌&&◌, ◌||◌, none, some, List,
  [], ◌∷◌, ◌++◌, ltb, leb, ◌==◌, if◌then◌else◌, Bytes, arith, ◌⊎◌, inl, inr,
}
use tuicast.Keys.Encode.{utf8}
use tuicast.Parsing.{
  State, osc_string, dcs_string, string_placeholder, expected_after, stand_in, protect_string,
  in_string, restore_placeholders, write_byte, write,
}

-- The two kinds of string whose content is delivered.
abbrev pub Delivers : State → Type 0
Delivers q = (q ≡ osc_string) ⊎ (q ≡ dcs_string)

-- The bytes of a text.
abbrev pub utf8_text : List ℕ → Bytes
utf8_text [] = []
utf8_text (r ∷ text) = utf8 r ++ utf8_text text

abbrev pub AllPrintable : List ℕ → Type 0
AllPrintable [] = Unit
AllPrintable (r ∷ text) = (0x20 ≤ r) × AllPrintable text

-- Which bytes of a UTF-8 sequence the code recognizes.
expects-tail : (c b : ℕ) → 0 < c → 0x80 ≤ b → b ≤ 0xbf → expected_after c b ≡ some (c - 1)
unfolding expected_after
expects-tail c b h lo hi = ground arith

expects-one : (c b : ℕ) → 0xc2 ≤ b → b ≤ 0xdf → expected_after c b ≡ some 1
unfolding expected_after
expects-one c b lo hi = ground arith

expects-two : (c b : ℕ) → 0xe0 ≤ b → b ≤ 0xef → expected_after c b ≡ some 2
unfolding expected_after
expects-two c b lo hi = ground arith

expects-three : (c b : ℕ) → 0xf0 ≤ b → b ≤ 0xf4 → expected_after c b ≡ some 3
unfolding expected_after
expects-three c b lo hi = ground arith

expects-none : (c b : ℕ) → b < 0x80 → expected_after c b ≡ none
unfolding expected_after
expects-none c b h = ground arith

Delivers-in_string : (q : State) → Delivers q → in_string q ≡ true
unfolding in_string
Delivers-in_string q (inl e) = rw e refl
Delivers-in_string q (inr e) = rw e refl

stand_in-Delivers :
    (q : State) (b : ℕ) → Delivers q → stand_in q b ≡ (if b == 0x9c then string_placeholder else b)
unfolding stand_in
stand_in-Delivers q b (inl e) = rw e refl
stand_in-Delivers q b (inr e) = rw e refl

restores :
    (b : ℕ)
    → b ≢ string_placeholder
    → restore_placeholders ((if b == 0x9c then string_placeholder else b) ∷ []) ≡ b ∷ []
unfolding restore_placeholders
restores b h = ground arith

restore-append :
    (xs ys : Bytes)
    → restore_placeholders (xs ++ ys) ≡ restore_placeholders xs ++ restore_placeholders ys
unfolding restore_placeholders
restore-append [] ys = refl
restore-append (x ∷ xs) ys = rw (restore-append xs ys) refl

if_both :
    (Q : Bytes → Type 0) (b : Bool) {xs ys : Bytes}
    → (b ≡ true → Q xs)
    → (b ≡ false → Q ys)
    → Q (if b then xs else ys)
if_both Q true h k = h refl
if_both Q false h k = k refl

module _ {P : Type 0} (state_of : P → State) (advance : ℕ → P → P) where
  abbrev pub advance_all : Bytes → P → P
  advance_all [] p = p
  advance_all (b ∷ bytes) p = advance_all bytes (advance b p)

  -- Inside a string, only a control character and the byte 0x9C can end it.
  abbrev pub StringsGoOn : Type 0
  StringsGoOn =
      (p : P) (b : ℕ)
      → Delivers (state_of p)
      → 0x20 ≤ b
      → b ≢ 0x9c
      → state_of (advance b p) ≡ state_of p

  -- The bytes go on to the parser under it as `fed`, which is what they are restored from, and the
  -- string goes on.
  pub record Passes (bytes : Bytes) (c c' : ℕ) (p : P) : Type 0 where
    pub fed : Bytes
    pub handed : write state_of advance bytes (p, c) ≡ (advance_all fed p, c')
    pub restored : restore_placeholders fed ≡ bytes
    pub stays : state_of (advance_all fed p) ≡ state_of p

  write-append :
      (xs ys : Bytes) (w : P × ℕ)
      → write state_of advance (xs ++ ys) w
        ≡ write state_of advance ys (write state_of advance xs w)
  unfolding write
  write-append [] ys w = refl
  write-append (x ∷ xs) ys w = write-append xs ys (write_byte state_of advance x w)

  advance_all-append :
      (xs ys : Bytes) (p : P) → advance_all (xs ++ ys) p ≡ advance_all ys (advance_all xs p)
  advance_all-append [] ys p = refl
  advance_all-append (x ∷ xs) ys p = advance_all-append xs ys (advance x p)

  -- A part, and what follows it.
  Passes-append :
      {xs ys : Bytes} {c c' c'' : ℕ} {p : P}
      → (first : Passes xs c c' p) → Passes ys c' c'' (advance_all first.fed p)
      → Passes (xs ++ ys) c c'' p
  Passes-append {xs} {ys} {c} {c'} {c''} {p} a b = record {
    fed = a.fed ++ b.fed;
    handed =
        write-append xs ys (p, c)
        ∙ ap (write state_of advance ys) a.handed
        ∙ b.handed
        ∙ ap (λ q. (q, c'')) (sym (advance_all-append a.fed b.fed p));
    restored =
        restore-append a.fed b.fed
        ∙ ap (λ l. l ++ restore_placeholders b.fed) a.restored
        ∙ ap (◌++◌ xs) b.restored;
    stays = ap state_of (advance_all-append a.fed b.fed p) ∙ b.stays ∙ a.stays;
  }

  module _ (go_on : StringsGoOn) where
    -- A byte of a UTF-8 sequence.
    sequence_byte :
        (p : P) (c b : ℕ) {c' : ℕ}
        → Delivers (state_of p)
        → 0x20 ≤ b
        → b ≢ string_placeholder
        → expected_after c b ≡ some c'
        → Passes (b ∷ []) c c' p
    unfolding write protect_string
    sequence_byte p c b d lo ne e = record {
      fed = (if b == 0x9c then string_placeholder else b) ∷ [];
      handed =
          rw (Delivers-in_string (state_of p) d)
            (rw e (rw (stand_in-Delivers (state_of p) b d) refl));
      restored = restores b ne;
      stays = go_on p (if b == 0x9c then string_placeholder else b) d (ground arith) (ground arith);
    }

    -- A byte that the code passes on as it is.
    plain_byte :
        (p : P) (c b : ℕ) → Delivers (state_of p) → 0x20 ≤ b → b < 0x80 → Passes (b ∷ []) c 0 p
    unfolding write protect_string restore_placeholders
    plain_byte p c b d lo hi = record {
      fed = b ∷ [];
      handed = rw (Delivers-in_string (state_of p) d) (rw (expects-none c b hi) refl);
      restored = ground arith;
      stays = go_on p b d lo (omega arith);
    }

    carried : (q : State) {q' : State} → q' ≡ q → Delivers q → Delivers q'
    carried q e d = rw e d

    -- A continuation byte, and what follows it.
    tail_byte :
        (p : P) (c b : ℕ)
        → Delivers (state_of p)
        → 0 < c
        → 0x80 ≤ b
        → b ≤ 0xbf
        → Passes (b ∷ []) c (c - 1) p
    tail_byte p c b d h lo hi =
        sequence_byte p c b d (omega arith) (λ e. absurd (omega (arith, e)))
          (expects-tail c b h lo hi)

    two_tails :
        (p : P) (x y : ℕ)
        → Delivers (state_of p)
        → 0x80 ≤ x
        → x ≤ 0xbf
        → 0x80 ≤ y
        → y ≤ 0xbf
        → Passes (x ∷ y ∷ []) 2 0 p
    two_tails p x y d lo hi lo' hi' =
        let first = tail_byte p 2 x d (omega arith) lo hi in
        Passes-append first
          (tail_byte (advance_all first.fed p) 1 y (carried _ first.stays d) (omega arith) lo' hi')

    three_tails :
        (p : P) (x y z : ℕ)
        → Delivers (state_of p)
        → 0x80 ≤ x
        → x ≤ 0xbf
        → 0x80 ≤ y
        → y ≤ 0xbf
        → 0x80 ≤ z
        → z ≤ 0xbf
        → Passes (x ∷ y ∷ z ∷ []) 3 0 p
    three_tails p x y z d lo hi lo' hi' lo'' hi'' =
        let first = tail_byte p 3 x d (omega arith) lo hi in
        Passes-append first
          (two_tails (advance_all first.fed p) y z (carried _ first.stays d) lo' hi' lo'' hi'')

    two_byte_sequence :
        (p : P) (c l x : ℕ)
        → Delivers (state_of p)
        → 0xc2 ≤ l
        → l ≤ 0xdf
        → 0x80 ≤ x
        → x ≤ 0xbf
        → Passes (l ∷ x ∷ []) c 0 p
    two_byte_sequence p c l x d lo hi lo' hi' =
        let first =
          sequence_byte p c l d (omega arith) (λ e. absurd (omega (arith, e)))
            (expects-one c l lo hi) in
        Passes-append first
          (tail_byte (advance_all first.fed p) 1 x (carried _ first.stays d) (omega arith) lo' hi')

    three_byte_sequence :
        (p : P) (c l x y : ℕ)
        → Delivers (state_of p)
        → 0xe0 ≤ l
        → l ≤ 0xef
        → 0x80 ≤ x
        → x ≤ 0xbf
        → 0x80 ≤ y
        → y ≤ 0xbf
        → Passes (l ∷ x ∷ y ∷ []) c 0 p
    three_byte_sequence p c l x y d lo hi a b a' b' =
        let first =
          sequence_byte p c l d (omega arith) (λ e. absurd (omega (arith, e)))
            (expects-two c l lo hi) in
        Passes-append first
          (two_tails (advance_all first.fed p) x y (carried _ first.stays d) a b a' b')

    four_byte_sequence :
        (p : P) (c l x y z : ℕ)
        → Delivers (state_of p)
        → 0xf0 ≤ l
        → l ≤ 0xf4
        → 0x80 ≤ x
        → x ≤ 0xbf
        → 0x80 ≤ y
        → y ≤ 0xbf
        → 0x80 ≤ z
        → z ≤ 0xbf
        → Passes (l ∷ x ∷ y ∷ z ∷ []) c 0 p
    four_byte_sequence p c l x y z d lo hi a b a' b' a'' b'' =
        let first =
          sequence_byte p c l d (omega arith) (λ e. absurd (omega (arith, e)))
            (expects-three c l lo hi) in
        Passes-append first
          (three_tails (advance_all first.fed p) x y z (carried _ first.stays d) a b a' b' a'' b'')

    utf8-Passes : (p : P) (r : ℕ) → Delivers (state_of p) → 0x20 ≤ r → Passes (utf8 r) 0 0 p
    unfolding utf8
    utf8-Passes p r d h =
        let Q : Bytes → Type 0 = λ bytes. Passes bytes 0 0 p in
        if_both Q (ltb r 0x80) (λ e. plain_byte p 0 r d h (ground arith))
          (λ a.
            if_both Q (ltb r 0x800)
              (λ b.
                two_byte_sequence p 0 _ _ d (ground arith) (ground arith) (omega arith)
                  (omega arith))
              (λ b.
                if_both Q (leb 0xd800 r && leb r 0xdfff || ltb 0x10ffff r)
                  (λ e.
                    three_byte_sequence p 0 _ _ _ d (omega arith) (omega arith) (omega arith)
                      (omega arith) (omega arith) (omega arith))
                  (λ e.
                    if_both Q (ltb r 0x10000)
                      (λ f.
                        three_byte_sequence p 0 _ _ _ d (omega arith) (ground arith) (omega arith)
                          (omega arith) (omega arith) (omega arith))
                      (λ f.
                        four_byte_sequence p 0 _ _ _ _ d (omega arith) (ground arith) (omega arith)
                          (omega arith) (omega arith) (omega arith) (omega arith) (omega arith)))))

    -- Text without control characters, inside an OSC or DCS string and from a state between two
    -- characters, never ends the string, whatever Unicode it holds; and what the parser under it is
    -- handed is restored to the text's UTF-8.
    pub write-utf8_text-Passes :
        (text : List ℕ) (p : P)
        → Delivers (state_of p)
        → AllPrintable text
        → Passes (utf8_text text) 0 0 p
    unfolding write restore_placeholders
    write-utf8_text-Passes [] p d h = record {
      fed = [];
      handed = refl;
      restored = refl;
      stays = refl;
    }
    write-utf8_text-Passes (r ∷ text) p d h =
        let first = utf8-Passes p r d h.0 in
        Passes-append first
          (write-utf8_text-Passes text (advance_all first.fed p) (carried _ first.stays d) h.1)
