-- ===== src/Ingest/Auth.antt =====
-- ingest/auth.go: the site of a request by its API key.
use ambagrid.Common.{
  ℕ, zero, suc, ◌+◌, Bool, true, false, not, ◌&&◌, ◌||◌, Option, none, some, List, [], ◌∷◌, Text,
  codes, ltb, leb, ◌==◌, if◌then◌else◌, text_eq, is_empty, length, take, trim_space,
}

pub record ApiKeyEntry : Type 0 where
  pub key : Text
  pub site_id : Text

-- `keys[e.Key] = e.SiteID`: the map is the list of its keys with their values, each key once.
unfoldable pub put_key : ApiKeyEntry → List ApiKeyEntry → List ApiKeyEntry
put_key e [] = e ∷ []
put_key e (k ∷ keys) = if text_eq k.key e.key then e ∷ keys else k ∷ put_key e keys

unfoldable pub put_keys : List ApiKeyEntry → List ApiKeyEntry → List ApiKeyEntry
unfolding put_key
put_keys [] keys = keys
put_keys (e ∷ entries) keys = put_keys entries (put_key e keys)

-- `NewAPIKeyAuth`.
abbrev pub new_api_key_auth : List ApiKeyEntry → List ApiKeyEntry
new_api_key_auth entries = put_keys entries []

-- The loop of `Authenticate`. At most one key is equal, so the order of the map does not matter.
unfoldable pub site_of : Text → List ApiKeyEntry → Option Text
site_of key [] = none
site_of key (k ∷ keys) = if text_eq key k.key then some k.site_id else site_of key keys

abbrev pub lower : ℕ → ℕ
lower c = if leb 65 c && leb c 90 then c + 32 else c

-- `strings.EqualFold` against a text whose letters only fold to ASCII.
unfoldable pub equal_fold : Text → Text → Bool
equal_fold [] [] = true
equal_fold (a ∷ s) (b ∷ t) = lower a == lower b && equal_fold s t
equal_fold _ _ = false

abbrev pub bearer : Text
bearer = codes "Bearer "

unfoldable pub bytes_from : ℕ → Text → Text
bytes_from zero s = s
bytes_from (suc n) [] = []
bytes_from (suc n) (c ∷ s) = bytes_from n s

-- An absent header is the empty text.
unfoldable pub extract_bearer_token : Text → Text
unfolding equal_fold bytes_from
extract_bearer_token auth =
    if is_empty auth
    then []
    else if ltb (length auth) 7 || not (equal_fold (take 7 auth) bearer)
    then []
    else trim_space (bytes_from 7 auth)

-- `Authenticate`, where `none` is ErrUnauthorized.
unfoldable pub authenticate : List ApiKeyEntry → Text → Option Text
unfolding extract_bearer_token site_of
authenticate keys auth =
    let key = extract_bearer_token auth in if is_empty key then none else site_of key keys
