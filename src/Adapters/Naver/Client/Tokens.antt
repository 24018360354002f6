-- ===== src/Adapters/Naver/Client/Tokens.antt =====
-- The tokens that the client keeps.
use arkain.Prelude.{
  ◌≡◌, refl, ◌∙◌, ap, ℕ, ◌+◌, ◌<◌, String, true, Option, none, some, List, [], ◌∷◌, Result, ok,
  throw, ltb, String-discrete, arith, if_pos, ◌==◌, subst,
}
use arkain.Prelude.Dict.{lookup, lookup-insert}
use arkain.Prelude.Exec.{continue, ◌>>=◌}
use arkain.Retry.{RaisedError}
use arkain.Retry.Results.{either, with_retry-Holds}
use arkain.Adapters.Transport.{RequestSpec}
use arkain.Adapters.Http.{
  HttpResponse, Scalar, null_value, text_value, other_value, parse_json, is_success, number_or_zero,
}
use arkain.Adapters.Naver.{NaverHttpConfig}
use arkain.Adapters.Naver.Client.{
  CachedToken, Client, Outside, token_skew_ms, without, cache_key, keep_token, accept_token,
  read_token, issue_token, get_token, from_cache, read_answer, with_world, send, token_request,
  seconds_of,
}

without-none :
    (key : String) (m : List (String × CachedToken))
    → lookup String-discrete key (without key m) ≡ none
unfolding lookup without
without-none key [] = refl
without-none key ((k, token) ∷ rest) = ground (arith, without-none key rest)

module _ {W : Type 0} (o : Outside W) (config : NaverHttpConfig) where
  abbrev key : String
  key = cache_key o config

  -- The token that is kept has the text.
  abbrev pub Kept : String → Client W → Type 0
  Kept token s =
      (c : CachedToken) × (lookup String-discrete key s.cache ≡ some c) × (c.access_token ≡ token)

  -- After a token is given, it is the one that is kept.
  abbrev KeptAfter : Result RaisedError String × Client W → Type 0
  KeptAfter (ok token, s) = Kept token s
  KeptAfter (throw e, s) = Unit

  keep-KeptAfter :
      (text : String) (expires_in : ℕ) (s : Client W)
      → KeptAfter (keep_token o config text expires_in s)
  unfolding keep_token
  keep-KeptAfter text expires_in s = (
    _,
    lookup-insert String-discrete key key _ s.cache
        ∙ if_pos (String-discrete key key) refl (some _) _,
    refl,
  )

  accept-KeptAfter :
      (res : HttpResponse) (value : Option Scalar) (expires_in : ℕ) (s : Client W)
      → KeptAfter (accept_token o config res value expires_in s)
  unfolding accept_token
  accept-KeptAfter res none expires_in s = tt
  accept-KeptAfter res (some null_value) expires_in s = tt
  accept-KeptAfter res (some (other_value v)) expires_in s = tt
  accept-KeptAfter res (some (text_value v)) expires_in s =
      either KeptAfter (expires_in == 0) tt (keep-KeptAfter v expires_in s)

  read-KeptAfter : (res : HttpResponse) (s : Client W) → KeptAfter (read_token o config res s)
  unfolding read_token
  read-KeptAfter res s =
      either KeptAfter (is_success res)
        (accept-KeptAfter res (o.json.member "access_token" (parse_json o.json res.text))
          (seconds_of
            (number_or_zero o.json (o.json.member "expires_in" (parse_json o.json res.text))))
          s)
        tt

  sent-KeptAfter :
      (r : Result RaisedError HttpResponse) (s : Client W)
      → KeptAfter (continue r (read_token o config) s)
  sent-KeptAfter (ok res) s = read-KeptAfter res s
  sent-KeptAfter (throw e) s = tt

  of_result-KeptAfter :
      (r : Result RaisedError String) (s : Client W)
      → ((token : String) → r ≡ ok token → Kept token s)
      → KeptAfter (r, s)
  of_result-KeptAfter (ok token) s kept = kept token refl
  of_result-KeptAfter (throw e) s kept = tt

  issue-KeptAfter : (s : Client W) → KeptAfter (issue_token o config s)
  unfolding issue_token
  issue-KeptAfter s = of_result-KeptAfter _ _ (
      with_retry-Holds o.retry
        (λ _. send o config (token_request o config (o.now s.world).0) >>= read_token o config) Kept
        (λ attempt w after token e. subst KeptAfter e (sent-KeptAfter (o.fetch _ w.world).0 _))
        (with_world o config s (o.now s.world).1))

  cached-KeptAfter :
      (s : Client W) (found : Option CachedToken)
      → lookup String-discrete key s.cache ≡ found
      → KeptAfter (from_cache o config found s)
  cached-KeptAfter s none e = issue-KeptAfter s
  cached-KeptAfter s (some c) e =
      either
        (λ (action : Client W → Result RaisedError String × Client W).
          KeptAfter (action (with_world o config s (o.now s.world).1)))
        (ltb ((o.now s.world).0 + token_skew_ms) c.expires_at_ms) (c, e, refl) (issue-KeptAfter _)

  get-KeptAfter : (s : Client W) → KeptAfter (get_token o config s)
  unfolding get_token
  get-KeptAfter s = cached-KeptAfter s (lookup String-discrete key s.cache) refl

  -- A kept token that is not about to expire is given again.
  fresh_lem :
      (s : Client W) (c : CachedToken)
      → lookup String-discrete key s.cache ≡ some c
      → (o.now s.world).0 + token_skew_ms < c.expires_at_ms
      → get_token o config s ≡ (ok c.access_token, with_world o config s (o.now s.world).1)
  unfolding get_token
  fresh_lem s c e early =
      let soon : ltb ((o.now s.world).0 + token_skew_ms) c.expires_at_ms ≡ true = ground arith in
      rw (e, soon) refl

  -- Where no token is kept, one is issued.
  missing_lem :
      (s : Client W)
      → lookup String-discrete key s.cache ≡ none
      → get_token o config s ≡ issue_token o config s
  unfolding get_token
  missing_lem s e = rw e refl

  dropped_lem :
      (spec : RequestSpec) (res : HttpResponse) (s : Client W)
      → res.status ≡ 401
      → lookup String-discrete key (read_answer o config spec res s).1.cache ≡ none
  unfolding read_answer
  dropped_lem spec res s e = rw e (without-none key s.cache)

-- Take a token that the client gave, and the entry that is kept in its state then. While the clock
-- is more than a minute before the expiry of that entry, a further call gives the same token, and
-- reads the clock but sends nothing and writes nothing. After an answer with status 401 the entry
-- is gone, and the next call issues a token.
pub get_token_again :
    {W : Type 0} (o : Outside W) (config : NaverHttpConfig) (s after : Client W) (token : String)
    (c : CachedToken) (spec : RequestSpec) (res : HttpResponse)
    → get_token o config s ≡ (ok token, after)
    → lookup String-discrete (cache_key o config) after.cache ≡ some c
    → (o.now after.world).0 + token_skew_ms < c.expires_at_ms
    → res.status ≡ 401
    → (get_token o config after ≡ (ok token, with_world o config after (o.now after.world).1))
      × (get_token o config (read_answer o config spec res after).1
          ≡ issue_token o config (read_answer o config spec res after).1)
get_token_again o config s after token c spec res given kept early unauthorized =
    let (held, there, same) = subst (KeptAfter o config) given (get-KeptAfter o config s) in
    let text_is : c.access_token ≡ token = cc (kept, there, same) in
    (
      fresh_lem o config after c kept early
          ∙ ap (λ t. (ok t, with_world o config after (o.now after.world).1)) text_is,
      missing_lem o config _ (dropped_lem o config spec res after unauthorized),
    )
