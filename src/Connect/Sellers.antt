-- ===== src/Connect/Sellers.antt =====
-- src/connect/naverSellerConnect.ts and src/connect/coupangSellerConnect.ts: a seller's credential is
-- verified, sealed and stored. `verify_credential` is that of the adapter; what it throws is no
-- verdict and leaves the call.
pub mod Verified
use arkain.Prelude.{String, Bool, true, false, List, [], ◌∷◌, Result, ok, throw}
use arkain.Marketplace.Types.{MarketplaceId, naver_smartstore, coupang, SellerCredential}
use arkain.Retry.{RaisedError}
use arkain.Domain.Store.{DomainTables, DomainDb, DomainError, upsert_connection}
use arkain.Connect.Sealing.{Secret, Platform, StoredCredential, put}

pub data ConnectResult : Type 0 where
  connected : String × MarketplaceId → ConnectResult
  rejected : String → ConnectResult

pub data ConnectError : Type 0 where
  verify_failed : RaisedError → ConnectError
  store_failed : DomainError → ConnectError

pub record CoupangCredentialInput : Type 0 where
  pub vendor_id : String
  pub access_key : String
  pub secret_key : String

abbrev pub naver_secret : String → Secret
naver_secret account_id = ("accountId", account_id) ∷ []

abbrev pub coupang_secret : CoupangCredentialInput → Secret
coupang_secret credential =
    ("vendorId", credential.vendor_id)
    ∷ ("accessKey", credential.access_key)
    ∷ ("secretKey", credential.secret_key)
    ∷ []

abbrev pub credential_of : String → MarketplaceId → Secret → SellerCredential
credential_of tenant_id marketplace secret = record {
  seller_id = tenant_id;
  marketplace = marketplace;
  secret = secret;
}

-- with the key of the credential store, and the iv that it draws
module _ (t : DomainTables) (p : Platform) (key iv : p.Bytes)
    (verify_credential : SellerCredential → Result RaisedError Bool) (tenant_id : String) where
  abbrev pub Answer : Type 0
  Answer = Result ConnectError ConnectResult × DomainDb t

  abbrev pub stored_as : Result DomainError (String × MarketplaceId) × DomainDb t → Answer
  stored_as (ok id, after) = (ok (connected id), after)
  stored_as (throw e, after) = (throw (store_failed e), after)

  -- what both do after the verdict
  unfoldable pub store_verified :
      MarketplaceId → Secret → String → Result RaisedError Bool → DomainDb t → Answer
  store_verified marketplace secret refusal (throw e) db = (throw (verify_failed e), db)
  store_verified marketplace secret refusal (ok false) db = (ok (rejected refusal), db)
  store_verified marketplace secret refusal (ok true) db =
      let stored = put p key iv tenant_id marketplace secret in
      stored_as (upsert_connection t tenant_id marketplace stored.ciphertext stored.key_version db)

  unfoldable pub connect_naver_seller : String → DomainDb t → Answer
  unfolding store_verified
  connect_naver_seller account_id =
      store_verified naver_smartstore (naver_secret account_id)
        "네이버 계정 연결을 확인하지 못했습니다. 2단계 연결 허용을 다시 진행해주세요."
        (verify_credential (credential_of tenant_id naver_smartstore (naver_secret account_id)))

  unfoldable pub connect_coupang_seller : CoupangCredentialInput → DomainDb t → Answer
  unfolding store_verified
  connect_coupang_seller credential =
      store_verified coupang (coupang_secret credential)
        "쿠팡 연동을 확인하지 못했습니다. Vendor ID/Access Key/Secret Key를 다시 확인해주세요."
        (verify_credential (credential_of tenant_id coupang (coupang_secret credential)))
