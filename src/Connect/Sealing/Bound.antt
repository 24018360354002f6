-- ===== src/Connect/Sealing/Bound.antt =====
-- A stored credential opens for its own seller and marketplace, and for no other.
use arkain.Prelude.{
  ◌≡◌, refl, sym, ap, ◌∙◌, String, Option, none, some, ok, throw, false, [], ◌∷◌, String-discrete,
  holds, if◌then◌else◌, inl, inr,
}
use arkain.Prelude.Text.{
  append, split, split-append, split-lacks, has, one-append, split_last, split_last-append,
}
use arkain.Marketplace.Types.{
  MarketplaceId, id_text, naver_smartstore, coupang, eleven_st, esm_2_0, gsshop,
}
use arkain.Connect.Sealing.{
  Secret, Platform, IsSound, StoredCredential, authentication_failed, tenant_aad, put, get,
  open_parts, sealed, joined, opened, parsed,
}

id_text_lacks : (m : MarketplaceId) → has ":" (id_text m) ≡ false
id_text_lacks naver_smartstore = refl
id_text_lacks coupang = refl
id_text_lacks eleven_st = refl
id_text_lacks esm_2_0 = refl
id_text_lacks gsshop = refl

-- The text names the seller and the marketplace.
parts_of_aad :
    (s : String) (m : MarketplaceId) → split_last ":" (tenant_aad s m) ≡ some (s, id_text m)
unfolding tenant_aad
parts_of_aad s m =
    rw (one-append ":" (id_text m)) (split_last-append ":" s (id_text m) (id_text_lacks m))

-- the marketplace of a text
of_text : String → MarketplaceId
unfolding String-discrete
of_text s =
    if holds (String-discrete s "naver_smartstore")
    then naver_smartstore
    else if holds (String-discrete s "coupang")
    then coupang
    else if holds (String-discrete s "eleven_st")
    then eleven_st
    else if holds (String-discrete s "esm_2_0")
    then esm_2_0
    else gsshop

of_text-id_text : (m : MarketplaceId) → of_text (id_text m) ≡ m
unfolding of_text
of_text-id_text naver_smartstore = refl
of_text-id_text coupang = refl
of_text-id_text eleven_st = refl
of_text-id_text esm_2_0 = refl
of_text-id_text gsshop = refl

some_parts : Option (String × String) → String × MarketplaceId
some_parts none = ("", gsshop)
some_parts (some (s, m)) = (s, of_text m)

-- No two pairs of a seller and a marketplace have the same associated data.
pub tenant_aad_injective :
    (s s' : String) (m m' : MarketplaceId) → tenant_aad s m ≡ tenant_aad s' m' → (s ≡ s') × (m ≡ m')
unfolding some_parts
tenant_aad_injective s s' m m' e =
    let parts : ◌≡◌ {A = String × MarketplaceId} (s, of_text (id_text m))
        (s', of_text (id_text m')) =
      ap some_parts (sym (parts_of_aad s m) ∙ ap (split_last ":") e ∙ parts_of_aad s' m') in
    (ap (λ q. q.0) parts, sym (of_text-id_text m) ∙ ap (λ q. q.1) parts ∙ of_text-id_text m')

module _ (p : Platform) (key iv : p.Bytes) (seller_id : String) (marketplace : MarketplaceId)
    (secret : Secret) (sound : IsSound p key iv seller_id marketplace secret) where
  open sound use {tag, ct, encrypts, coded}

  abbrev Plain : p.Bytes → Type 0
  Plain b = (p.from_base64 (p.to_base64 b) ≡ b) × (has "." (p.to_base64 b) ≡ false)

  split-joined :
      (a b c : p.Bytes)
      → Plain a
      → Plain b
      → Plain c
      → split "." (joined p (p.to_base64 a) (p.to_base64 b) (p.to_base64 c))
        ≡ p.to_base64 a ∷ p.to_base64 b ∷ p.to_base64 c ∷ []
  split-joined a b c ha hb hc =
      rw
        (
          one-append "." (append (p.to_base64 b) (append "." (p.to_base64 c))),
          split-append "." (p.to_base64 a) (append (p.to_base64 b) (append "." (p.to_base64 c)))
              ha.1,
          one-append "." (p.to_base64 c),
          split-append "." (p.to_base64 b) (p.to_base64 c) hb.1,
          split-lacks "." (p.to_base64 c) hc.1,
        )
        refl

  open_lem :
      (aad : p.Bytes)
      → open_parts p key aad (split "." (sealed p iv (tag, ct)))
        ≡ opened p (p.decrypt key iv aad tag ct)
  open_lem aad =
      let code_of_iv = coded iv (inl refl) in
      let code_of_tag = coded tag (inr (inl refl)) in
      let code_of_ct = coded ct (inr (inr refl)) in
      rw (split-joined iv tag ct code_of_iv code_of_tag code_of_ct)
        (unfold open_parts in rw (code_of_iv.0, code_of_tag.0, code_of_ct.0) refl)

  abbrev pub moved : String → MarketplaceId → StoredCredential
  moved s m = record (put p key iv seller_id marketplace secret) { seller_id = s; marketplace = m }

  get_lem :
      (s : String) (m : MarketplaceId)
      → get p key (moved s m) ≡ opened p (p.decrypt key iv (p.utf8 (tenant_aad s m)) tag ct)
  unfolding get put
  get_lem s m = rw encrypts (open_lem (p.utf8 (tenant_aad s m)))

  pub own_lem : get p key (put p key iv seller_id marketplace secret) ≡ ok secret
  unfolding put
  own_lem =
      get_lem seller_id marketplace
      ∙ ap (opened p) sound.decrypts
      ∙ ap (parsed p) sound.parse_json-json

  -- A credential that was put is read back whole, and when it is shown as that of another seller
  -- or another marketplace, reading it throws. This relies on the encodings being undone and
  -- leaving no dot, and on the tag fitting its own associated data and no other.
  pub get-put :
      (s : String) (m : MarketplaceId)
      → ¬ ((seller_id ≡ s) × (marketplace ≡ m))
      → (get p key (put p key iv seller_id marketplace secret) ≡ ok secret)
        × (get p key (moved s m) ≡ throw authentication_failed)
  get-put s m other = (
    own_lem,
    get_lem s m
        ∙ ap (opened p) (
            sound.decrypts_other (p.utf8 (tenant_aad s m)) (λ e. other (
              tenant_aad_injective seller_id s marketplace m
                (sound.utf8_injective (tenant_aad seller_id marketplace) (tenant_aad s m) e)))),
  )
