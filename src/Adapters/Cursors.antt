-- ===== src/Adapters/Cursors.antt =====
-- The cursors of the adapters, which travel as texts: `encodeCursor` and `decodeCursor`, which the three
-- adapters define alike. The times in a cursor are ISO texts there and milliseconds here.
use arkain.Prelude.{
  ◌≡◌, ◌≢◌, refl, String, Option, none, some, holds, String-discrete, holds-no, if◌then◌else◌,
}

-- JSON in base64url. `decode` is `none` where it throws.
pub record CursorCodec (C : Type 0) : Type 0 where
  pub encode : C → String
  pub decode : String → Option C
  pub decode-encode : (c : C) → decode (encode c) ≡ some c
  pub encode_full : (c : C) → encode c ≢ ""

module _ {C : Type 0} (codec : CursorCodec C) where
  unfoldable pub encode_cursor : Option C → Option String
  encode_cursor none = none
  encode_cursor (some c) = some (codec.encode c)

  -- no cursor and the empty text are no cursor
  unfoldable pub decode_cursor : Option String → Option C
  decode_cursor none = none
  decode_cursor (some s) = if holds (String-discrete s "") then none else codec.decode s

  pub decode-encode_cursor : (c : Option C) → decode_cursor (encode_cursor c) ≡ c
  unfolding decode_cursor encode_cursor
  decode-encode_cursor none = refl
  decode-encode_cursor (some c) =
      rw (holds-no (String-discrete (codec.encode c) "") (codec.encode_full c))
        (codec.decode-encode c)

-- `decodeCursor(...) ?? first`
abbrev pub or_first {ℓ} : {C : Type ℓ} → Option C → C → C
or_first none c = c
or_first (some d) c = d
