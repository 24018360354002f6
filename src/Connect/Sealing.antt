-- ===== src/Connect/Sealing.antt =====
-- src/secrets/credentialStore.ts. The cipher, AES-256-GCM, the encodings and JSON are the platform's:
-- they are parameters, with what the code relies on of them.
pub mod Bound
use arkain.Prelude.{
  ℕ, String, Bool, Option, none, some, List, [], ◌∷◌, Result, ok, throw, if◌then◌else◌, ◌==◌, ◌≡◌,
  ◌≢◌, false, ◌⊎◌,
}
use arkain.Prelude.Text.{append, split, has}
use arkain.Marketplace.Types.{MarketplaceId, id_text}

-- the fields of a secret
abbrev pub Secret : Type 0
Secret = List (String × String)

pub record Platform : Type 1 where
  pub Bytes : Type 0
  pub byte_length : Bytes → ℕ
  pub to_base64 : Bytes → String
  pub from_base64 : String → Bytes
  pub utf8 : String → Bytes
  pub json : Secret → Bytes
  pub parse_json : Bytes → Option Secret
  -- with the key, the iv and the associated data: the tag and the ciphertext
  pub encrypt : Bytes → Bytes → Bytes → Bytes → Bytes × Bytes
  -- with the key, the iv, the associated data, the tag and the ciphertext; `none` is the throw of
  -- `final` where the tag is wrong
  pub decrypt : Bytes → Bytes → Bytes → Bytes → Bytes → Option Bytes

pub record StoredCredential : Type 0 where
  pub seller_id : String
  pub marketplace : MarketplaceId
  pub ciphertext : String
  pub key_version : ℕ

pub data CredentialError : Type 0 where
  bad_key malformed_ciphertext authentication_failed malformed_json : CredentialError

unfoldable pub tenant_aad : String → MarketplaceId → String
tenant_aad seller_id marketplace = append seller_id (append ":" (id_text marketplace))

module _ (p : Platform) where
  -- the constructor: the key of the configuration
  unfoldable pub read_key : String → Result CredentialError p.Bytes
  read_key enc_key_base64 =
      if p.byte_length (p.from_base64 enc_key_base64) == 32
      then ok (p.from_base64 enc_key_base64)
      else throw bad_key

  abbrev pub joined : String → String → String → String
  joined iv tag ct = append iv (append "." (append tag (append "." ct)))

  abbrev pub sealed : p.Bytes → p.Bytes × p.Bytes → String
  sealed iv (tag, ct) = joined (p.to_base64 iv) (p.to_base64 tag) (p.to_base64 ct)

  -- with the iv that is drawn
  unfoldable pub put : p.Bytes → p.Bytes → String → MarketplaceId → Secret → StoredCredential
  unfolding tenant_aad
  put key iv seller_id marketplace secret = record {
    seller_id = seller_id;
    marketplace = marketplace;
    key_version = 1;
    ciphertext =
        sealed iv (p.encrypt key iv (p.utf8 (tenant_aad seller_id marketplace)) (p.json secret));
  }

  abbrev pub parsed : Option Secret → Result CredentialError Secret
  parsed none = throw malformed_json
  parsed (some secret) = ok secret

  abbrev pub opened : Option p.Bytes → Result CredentialError Secret
  opened none = throw authentication_failed
  opened (some text) = parsed (p.parse_json text)

  -- the three parts of the ciphertext
  unfoldable pub open_parts : p.Bytes → p.Bytes → List String → Result CredentialError Secret
  open_parts key aad (iv ∷ tag ∷ ct ∷ []) =
      opened (p.decrypt key (p.from_base64 iv) aad (p.from_base64 tag) (p.from_base64 ct))
  open_parts key aad _ = throw malformed_ciphertext

  unfoldable pub get : p.Bytes → StoredCredential → Result CredentialError Secret
  unfolding open_parts tenant_aad
  get key stored =
      open_parts key (p.utf8 (tenant_aad stored.seller_id stored.marketplace))
        (split "." stored.ciphertext)

-- What is relied on of the platform, for a credential that is put. That a tag fits no other
-- associated data is the promise of the mode, which holds but for a chance that is negligible.
pub record IsSound (p : Platform) (key iv : p.Bytes) (seller_id : String)
    (marketplace : MarketplaceId) (secret : Secret) : Type 0 where
  pub utf8_injective : (s t : String) → p.utf8 s ≡ p.utf8 t → s ≡ t
  pub parse_json-json : p.parse_json (p.json secret) ≡ some secret
  pub tag : p.Bytes
  pub ct : p.Bytes
  pub encrypts :
      p.encrypt key iv (p.utf8 (tenant_aad seller_id marketplace)) (p.json secret) ≡ (tag, ct)
  pub coded :
      (b : p.Bytes)
      → (b ≡ iv) ⊎ ((b ≡ tag) ⊎ (b ≡ ct))
      → (p.from_base64 (p.to_base64 b) ≡ b) × (has "." (p.to_base64 b) ≡ false)
  pub decrypts :
      p.decrypt key iv (p.utf8 (tenant_aad seller_id marketplace)) tag ct ≡ some (p.json secret)
  pub decrypts_other :
      (other : p.Bytes)
      → p.utf8 (tenant_aad seller_id marketplace) ≢ other
      → p.decrypt key iv other tag ct ≡ none
