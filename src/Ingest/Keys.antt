-- ===== src/Ingest/Keys.antt =====
-- Which site an API key stands for.
use ambagrid.Common.{
  ℕ, suc, ◌≡◌, refl, ◌∙◌, inl, inr, true, false, some, List, [], ◌∷◌, ◌++◌, arith, Text, text_eq,
  text_eq_refl, text_eq_iff, is_empty, trim_space, All, Bool-cases, sym, subst, length, ltb,
}
use ambagrid.Ingest.Auth

text_eq_flip : (s t : Text) → text_eq s t ≡ true → text_eq t s ≡ true
text_eq_flip s t h = subst (λ u. text_eq u s ≡ true) ((text_eq_iff s t).0 h) (text_eq_refl s)

text_eq_differs : (s t : Text) → text_eq s t ≡ false → text_eq t s ≡ false
text_eq_differs s t h = elim (Bool-cases (text_eq t s)) [
  | inl same ↦ absurd (ground (arith, text_eq_flip t s same))
  | inr other ↦ other
]

-- The key that was put last is found with its site.
site_of-put_key :
    (key site : Text) (keys : List Auth.ApiKeyEntry)
    → Auth.site_of key (Auth.put_key (record { key = key; site_id = site }) keys) ≡ some site
unfolding Auth.site_of Auth.put_key
site_of-put_key key site [] = rw (text_eq_refl key) refl
site_of-put_key key site (k ∷ keys) = elim (Bool-cases (text_eq k.key key)) [
  | inl same ↦ rw (same, text_eq_refl key) refl
  | inr other ↦ rw (other, text_eq_differs k.key key other) (site_of-put_key key site keys)
]

-- Another key that is put leaves it there.
site_of-put_other :
    (key : Text) (e : Auth.ApiKeyEntry) (keys : List Auth.ApiKeyEntry)
    → text_eq key e.key ≡ false
    → Auth.site_of key (Auth.put_key e keys) ≡ Auth.site_of key keys
unfolding Auth.site_of Auth.put_key
site_of-put_other key e [] h = rw h refl
site_of-put_other key e (k ∷ keys) h = elim (Bool-cases (text_eq k.key e.key)) [
  | inl same ↦
      let equal : k.key ≡ e.key = (text_eq_iff k.key e.key).0 same in
      rw (same, h, subst (λ t. text_eq key t ≡ false) (sym equal) h) refl
  | inr other ↦ rw (other, site_of-put_other key e keys h) refl
]

site_of-put_others :
    (key : Text) (entries keys : List Auth.ApiKeyEntry)
    → All (λ e. text_eq key e.key ≡ false) entries
    → Auth.site_of key (Auth.put_keys entries keys) ≡ Auth.site_of key keys
unfolding Auth.put_keys
site_of-put_others key [] keys h = refl
site_of-put_others key (e ∷ entries) keys h =
    site_of-put_others key entries (Auth.put_key e keys) h.1 ∙ site_of-put_other key e keys h.0

site_of-put_keys :
    (key site : Text) (before after keys : List Auth.ApiKeyEntry)
    → All (λ e. text_eq key e.key ≡ false) after
    → Auth.site_of key (Auth.put_keys (before ++ record { key = key; site_id = site } ∷ after) keys)
      ≡ some site
unfolding Auth.put_keys
site_of-put_keys key site [] after keys h =
    site_of-put_others key after (Auth.put_key _ keys) h ∙ site_of-put_key key site keys
site_of-put_keys key site (e ∷ before) after keys h =
    site_of-put_keys key site before after (Auth.put_key e keys) h

long_enough : (n : ℕ) → ltb (suc (suc (suc (suc (suc (suc (suc n))))))) 7 ≡ false
long_enough n = ground arith

bearer_token :
    (key : Text) → trim_space key ≡ key → Auth.extract_bearer_token (Auth.bearer ++ key) ≡ key
unfolding Auth.extract_bearer_token Auth.equal_fold Auth.bytes_from is_empty
bearer_token key trimmed = rw (long_enough (length key)) trimmed

-- The header that the uploader sends with its key authenticates it, as the site of the last entry with
-- that key: the key is not empty and has no white space around it.
pub authenticate-new_api_key_auth :
    (key site : Text) (before after : List Auth.ApiKeyEntry)
    → trim_space key ≡ key
    → is_empty key ≡ false
    → All (λ e. text_eq key e.key ≡ false) after
    → Auth.authenticate
        (Auth.new_api_key_auth (before ++ record { key = key; site_id = site } ∷ after))
        (Auth.bearer ++ key)
      ≡ some site
unfolding Auth.authenticate
authenticate-new_api_key_auth key site before after trimmed full later =
    rw (bearer_token key trimmed, full) (site_of-put_keys key site before after [] later)
