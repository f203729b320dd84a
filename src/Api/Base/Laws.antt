-- ===== src/Api/Base/Laws.antt =====
-- The slashes and the `/api` suffix at the end of a configured address do not matter
-- (`getCleanApiBase` of frontend/src/services/api.js).
use Prim.Native.Char.{Char}
use Prim.Native.String.{[], ◌∷◌, count}
use text.Mathlib.TextLemmas.{
  nil-append, cons-append, append_assoc, length-append, tail-eq_of_cons-eq,
}
use poll.Prelude.{
  ℕ, zero, suc, String, ◌++◌, ◌≡◌, refl, sym, ap, ◌∙◌, inl, inr, Bool, false, ◌==◌, eq_iff, arith,
  drop_end, is_empty, trim, Bool-cases, ◌≢◌,
}
use poll.Api.Base.{Env, or_empty, is_slash, strip_slashes, strip_api, clean, get_clean_api_base}

-- `n` slashes
abbrev pub slashes : ℕ → String
slashes zero = ""
slashes (suc n) = "/" ∷ slashes n

module _ (test : Char → Bool) where
  drop_end-append_nil :
      (s t : String) → drop_end test t ≡ [] → drop_end test (s ++ t) ≡ drop_end test s
  unfolding drop_end
  drop_end-append_nil [] t h = rw nil-append h
  drop_end-append_nil (c ∷ s) t h = rw cons-append (ground (arith, drop_end-append_nil s t h))

  is_empty-append : (s t : String) → is_empty t ≡ false → is_empty (s ++ t) ≡ false
  is_empty-append [] t h = rw nil-append h
  is_empty-append (c ∷ s) t h = rw cons-append refl

  drop_end-append_keep :
      (s t : String) → drop_end test t ≡ t → is_empty t ≡ false → drop_end test (s ++ t) ≡ s ++ t
  unfolding drop_end
  drop_end-append_keep [] t h e = rw nil-append h
  drop_end-append_keep (c ∷ s) t h e =
      rw cons-append (ground (arith, drop_end-append_keep s t h e, is_empty-append s t e))

drop_end-slashes : (n : ℕ) → drop_end is_slash (slashes n) ≡ []
unfolding drop_end is_slash
drop_end-slashes zero = refl
drop_end-slashes (suc n) = rw (drop_end-slashes n)

four_more : (s : String) → count (s ++ "/api") ≢ 3
four_more s e = absurd (omega (arith, e, length-append s "/api"))

-- A text that goes on after its first character and ends in `/api` is longer than `/api`.
longer_than_api : (c : Char) (s : String) → (c ∷ (s ++ "/api")) == "/api" ≡ false
longer_than_api c s = elim (Bool-cases ((c ∷ (s ++ "/api")) == "/api")) [
  | inr no_more ↦ no_more
  | inl same ↦ absurd (four_more s (ap count (tail-eq_of_cons-eq ((eq_iff _ _).0 same))))
]

strip_api-append : (s : String) → strip_api (s ++ "/api") ≡ s
unfolding strip_api
strip_api-append [] = refl
strip_api-append (c ∷ s) = rw cons-append (ground (arith, strip_api-append s, longer_than_api c s))

-- Whatever stands before it, a final `/api` is taken off, with any slashes behind it.
pub clean-api : (url : String) (n : ℕ) → clean (url ++ "/api" ++ slashes n) ≡ url
unfolding clean strip_slashes drop_end is_slash
clean-api url n =
    ap strip_api (
      ap (drop_end is_slash) (sym (append_assoc url "/api" (slashes n)))
      ∙ drop_end-append_nil is_slash (url ++ "/api") (slashes n) (drop_end-slashes n)
      ∙ drop_end-append_keep is_slash url "/api" refl refl)
    ∙ strip_api-append url

-- Slashes at the end are taken off, however many.
pub clean-slashes : (url : String) (n : ℕ) → clean (url ++ slashes n) ≡ clean url
unfolding clean strip_slashes
clean-slashes url n =
    ap strip_api (drop_end-append_nil is_slash url (slashes n) (drop_end-slashes n))

is_empty-append_api : (url t : String) → is_empty (url ++ "/api" ++ t) ≡ false
is_empty-append_api [] t = rw (nil-append ("/api" ++ t)) (ap is_empty (cons-append "/" "api" t))
is_empty-append_api (c ∷ url) t = rw cons-append refl

module _ (env : Env) (url : String) (n : ℕ) where
  -- The address that the client uses is the one before a configured `/api` and its slashes.
  pub get_clean_api_base-api :
      trim (or_empty env.vite_api_url) ≡ url ++ "/api" ++ slashes n → get_clean_api_base env ≡ url
  unfolding get_clean_api_base
  get_clean_api_base-api h = rw h (rw (is_empty-append_api url) (clean-api url n))
