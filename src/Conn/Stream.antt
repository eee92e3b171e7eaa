-- ===== src/Conn/Stream.antt =====
-- The adapter as a byte stream over frames.
use go_grpcbridge.Base.{
  ℕ, zero, suc, ◌≤◌, ◌≡◌, ◌++◌, refl, sym, ap, ◌∙◌, ◌⊎◌, inl, inr, true, false, ◌||◌, not, Option,
  none, some, List, [], ◌∷◌, ltb, take, drop, length, arith, Bool-cases, take-append-drop,
  length-take,
}
use mathlib.Core.List.{append_assoc}
use go_grpcbridge.Conn.{
  Bytes, Errors, Incoming, binary, text, broken, Grant, more, ends, breaks, Conn, Outcome, returned,
  failed, blocks, take_grant, read_frames, read_open, read,
}

-- The io.Reader contract of gorilla's frame reader: no more bytes than there is room for or are left, and
-- io.EOF only once all of them were given.
pub record IsReader (grant : ℕ → ℕ → Grant) : Type 0 where
  pub more_fits : (size left n : ℕ) → grant size left ≡ more n → (n ≤ size) × (n ≤ left)
  pub ends_fits : (size left n : ℕ) → grant size left ≡ ends n → (n ≤ size) × (n ≡ left)
  pub breaks_fits : (size left n : ℕ) → grant size left ≡ breaks n → (n ≤ size) × (n ≤ left)

-- The bytes of the binary frames that are to come, up to the first error.
unfoldable pub payload : List Incoming → Bytes
payload [] = []
payload (broken ∷ rest) = []
payload (text m ∷ rest) = payload rest
payload (binary m ∷ rest) = m ++ payload rest

abbrev pub frame_rest : Option Bytes → Bytes
frame_rest none = []
frame_rest (some m) = m

unfoldable pub pending : Conn → Bytes
pending c = frame_rest c.reader ++ payload c.incoming

abbrev pub bytes_of : Outcome → Bytes
bytes_of (returned b) = b
bytes_of (failed b e) = b
bytes_of blocks = []

-- An answer of Read takes a prefix off the stream, and blocks only where nothing is left.
pub record Takes (size : ℕ) (before : Bytes) (answer : Outcome × Conn) : Type 0 where
  pub prefix : bytes_of answer.0 ++ pending answer.1 ≡ before
  pub fits : length (bytes_of answer.0) ≤ size
  pub waits : answer.0 ≡ blocks → before ≡ []

take_all : (n : ℕ) (m : Bytes) → length m ≤ n → take n m ≡ m
take_all zero [] h = refl
take_all zero (x ∷ m) h = absurd (omega arith)
take_all (suc n) [] h = refl
take_all (suc n) (x ∷ m) h = ap (λ l. x ∷ l) (take_all n m (omega arith))

length_zero : (m : Bytes) → length m ≡ 0 → m ≡ []
length_zero [] h = refl
length_zero (x ∷ m) h = absurd (omega arith)

module _ (grant : ℕ → ℕ → Grant) (errors : Errors) (reader_law : IsReader grant) where
  granted-Takes :
      (size : ℕ) (m : Bytes) (c : Conn) (g : Grant) (next : Outcome × Conn)
      → grant size (length m) ≡ g
      → Takes size (payload c.incoming) next
      → Takes size (m ++ payload c.incoming) (take_grant grant errors m c g next)
  unfolding take_grant pending
  granted-Takes size m c (more n) next e t = record {
    prefix =
        sym (append_assoc (take n m) (drop n m) (payload c.incoming))
        ∙ ap (λ l. l ++ payload c.incoming) (take-append-drop n m);
    fits = omega (arith, length-take n m, reader_law.more_fits size (length m) n e);
    waits = λ h. absurd (ground arith);
  }
  granted-Takes size m c (breaks n) next e t = record {
    prefix =
        sym (append_assoc (take n m) (drop n m) (payload c.incoming))
        ∙ ap (λ l. l ++ payload c.incoming) (take-append-drop n m);
    fits = omega (arith, length-take n m, reader_law.breaks_fits size (length m) n e);
    waits = λ h. absurd (ground arith);
  }
  granted-Takes size m c (ends n) next e t = elim (Bool-cases (ltb 0 n)) [
    | inl some_bytes ↦ rw some_bytes (record {
      prefix =
          ap (λ l. l ++ payload c.incoming)
            (take_all n m (omega (arith, reader_law.ends_fits size (length m) n e)));
      fits = omega (arith, length-take n m, reader_law.ends_fits size (length m) n e);
      waits = λ h. absurd (ground arith);
    })
    | inr none_left ↦
        rw (none_left, length_zero m (ground (arith, reader_law.ends_fits size (length m) n e))) t
  ]

  read_frames-Takes :
      (size : ℕ) (frames : List Incoming) (c : Conn)
      → Takes size (payload frames) (read_frames grant errors size frames c)
  unfolding read_frames payload pending
  read_frames-Takes size [] c = record { prefix = refl; fits = omega arith; waits = λ h. refl }
  read_frames-Takes size (broken ∷ rest) c = record {
    prefix = refl;
    fits = omega arith;
    waits = λ h. refl;
  }
  read_frames-Takes size (text m ∷ rest) c = record {
    prefix = refl;
    fits = omega arith;
    waits = λ h. absurd (ground arith);
  }
  read_frames-Takes size (binary m ∷ rest) c =
      granted-Takes size m (record c { incoming = rest }) _ _ refl (read_frames-Takes size rest c)

  read_open-Takes :
      (size : ℕ) (r : Option Bytes) (c : Conn)
      → Takes size (frame_rest r ++ payload c.incoming) (read_open grant errors size r c)
  unfolding read_open
  read_open-Takes size none c = read_frames-Takes size c.incoming c
  read_open-Takes size (some m) c =
      granted-Takes size m c _ _ refl (read_frames-Takes size c.incoming c)

  pub read-Takes_payload :
      (size : ℕ) (c : Conn)
      → ((c.is_closed || not c.has_socket) ≡ true)
          × (read grant errors size c ≡ (failed [] errors.on_closed_read, c))
        ⊎ ((c.is_closed || not c.has_socket) ≡ false)
          × Takes size (pending c) (read grant errors size c)
  unfolding read pending
  read-Takes_payload size c = elim (Bool-cases (c.is_closed || not c.has_socket)) [
    | inl gone ↦ inl (gone, rw (gone, read) refl)
    | inr there ↦ inr (there, rw (there, read) (read_open-Takes size c.reader c))
  ]
