-- ===== src/Connect/Sellers/Verified.antt =====
-- What a connection stores.
use arkain.Prelude.{
  ◌≡◌, refl, ap, ◌∙◌, String, Bool, true, false, Option, none, some, Result, ok, throw, ite,
}
use arkain.Marketplace.Types.{MarketplaceId, naver_smartstore, coupang, SellerCredential}
use arkain.Retry.{RaisedError}
use arkain.Prisma.{upserted}
use arkain.Domain.Store.{DomainTables, DomainDb, ConnectionRow, upsert_connection}
use arkain.Connect.Sealing.{Secret, Platform, IsSound, StoredCredential, put, get}
use arkain.Connect.Sealing.Bound.{own_lem}
use arkain.Connect.Sellers.{
  ConnectResult, ConnectError, connected, rejected, verify_failed, store_verified,
  connect_naver_seller, connect_coupang_seller, CoupangCredentialInput, naver_secret,
  coupang_secret, credential_of,
}

module _ (t : DomainTables) (p : Platform) (key iv : p.Bytes) (tenant_id : String)
    (db : DomainDb t) where
  -- A stored row as the credential that it is of a seller and a marketplace.
  abbrev pub credential_in : String → MarketplaceId → ConnectionRow → StoredCredential
  credential_in seller_id marketplace row = record {
    seller_id = seller_id;
    marketplace = marketplace;
    ciphertext = row.ciphertext;
    key_version = row.key_version;
  }

  -- The seller's connection to the marketplace is active, and opens to the secret; other connections,
  -- the orders and the products are as they were.
  pub record IsConnected (marketplace : MarketplaceId) (secret : Secret) (after : DomainDb t)
      : Type 0 where
    pub row : ConnectionRow
    pub connections :
        (j : String × MarketplaceId)
        → t.connections.find j after.connections
          ≡ ite
              (t.connections.dec (tenant_id, marketplace) j)
              (some row)
              (t.connections.find j db.connections)
    pub active : row.is_active ≡ true
    pub opens : get p key (credential_in tenant_id marketplace row) ≡ ok secret
    pub orders : after.orders ≡ db.orders
    pub products : after.products ≡ db.products

  -- By the verdict: a throw leaves the call and stores nothing, so does a refusal, which is an
  -- answer, and a valid credential is stored under the seller and the marketplace.
  abbrev pub Connects :
      MarketplaceId
      → Secret
      → Result RaisedError Bool
      → Result ConnectError ConnectResult × DomainDb t
      → Type 0
  Connects marketplace secret (throw e) o = o ≡ (throw (verify_failed e), db)
  Connects marketplace secret (ok false) o = (text : String) × (o ≡ (ok (rejected text), db))
  Connects marketplace secret (ok true) o =
      (after : DomainDb t) × (o ≡ (ok (connected (tenant_id, marketplace)), after))
      × IsConnected marketplace secret after

  stored_row : MarketplaceId → Secret → ConnectionRow
  stored_row marketplace secret =
      let stored = put p key iv tenant_id marketplace secret in
      record { ciphertext = stored.ciphertext; key_version = stored.key_version; is_active = true }

  same_lem : (o : Option ConnectionRow) (row : ConnectionRow) → upserted row (λ _. row) o ≡ row
  same_lem none row = refl
  same_lem (some old) row = refl

  store_lem :
      (verify : SellerCredential → Result RaisedError Bool) (marketplace : MarketplaceId)
      (secret : Secret) (refusal : String) (verdict : Result RaisedError Bool)
      → IsSound p key iv tenant_id marketplace secret
      → Connects marketplace secret verdict
          (store_verified t p key iv verify tenant_id marketplace secret refusal verdict db)
  unfolding store_verified upsert_connection stored_row put
  store_lem verify marketplace secret refusal (throw e) sound = refl
  store_lem verify marketplace secret refusal (ok false) sound = (refusal, refl)
  store_lem verify marketplace secret refusal (ok true) sound =
      let row : ConnectionRow = stored_row marketplace secret in
      (
        record db {
          connections = t.connections.upsert (tenant_id, marketplace) row (λ _. row) db.connections;
        },
        refl,
        record {
          row = row;
          connections = λ j.
              t.connections.find-upsert (tenant_id, marketplace) row (λ _. row) db.connections j
              ∙ ap
                  (λ r.
                    ite (t.connections.dec (tenant_id, marketplace) j) (some r)
                      (t.connections.find j db.connections))
                  (same_lem (t.connections.find (tenant_id, marketplace) db.connections) row);
          active = refl;
          opens = own_lem p key iv tenant_id marketplace secret sound;
          orders = refl;
          products = refl;
        },
      )

  -- Connecting a seller to Naver or to Coupang follows the verdict of the marketplace on the
  -- credential. What the verification throws leaves the call, and nothing is stored; a credential
  -- that is not valid is an answer, and nothing is stored; a valid one is stored as an active
  -- connection of this seller and marketplace, whose sealed text opens to the very secret that was
  -- given, and nothing else is changed.
  pub connect_seller-Connects :
      (verify : SellerCredential → Result RaisedError Bool) (account_id : String)
      (credential : CoupangCredentialInput)
      → IsSound p key iv tenant_id naver_smartstore (naver_secret account_id)
      → IsSound p key iv tenant_id coupang (coupang_secret credential)
      → Connects naver_smartstore
          (naver_secret account_id)
          (verify (credential_of tenant_id naver_smartstore (naver_secret account_id)))
          (connect_naver_seller t p key iv verify tenant_id account_id db)
        × Connects coupang
            (coupang_secret credential)
            (verify (credential_of tenant_id coupang (coupang_secret credential)))
            (connect_coupang_seller t p key iv verify tenant_id credential db)
  unfolding connect_naver_seller connect_coupang_seller
  connect_seller-Connects verify account_id credential naver_sound coupang_sound = (
    store_lem verify naver_smartstore (naver_secret account_id)
        "네이버 계정 연결을 확인하지 못했습니다. 2단계 연결 허용을 다시 진행해주세요."
        (verify (credential_of tenant_id naver_smartstore (naver_secret account_id))) naver_sound,
    store_lem verify coupang (coupang_secret credential)
        "쿠팡 연동을 확인하지 못했습니다. Vendor ID/Access Key/Secret Key를 다시 확인해주세요."
        (verify (credential_of tenant_id coupang (coupang_secret credential))) coupang_sound,
  )
