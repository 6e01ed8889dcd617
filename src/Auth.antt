-- ===== src/Auth.antt =====
-- pkg/auth/auth.go: the credentials of the GitHub App. `githubapp.NewClient` is an argument.
use mathlib.Core.Path.{subst}
use github_update_go_watcher.Common.{
  sym, ◌≡◌, ◌≢◌, ◌⊎◌, arith, Bool, not, ◌&&◌, ◌||◌, List, [], ◌∷◌, ◌++◌, Option, none, some, Text,
  ◌==◌, if◌then◌else◌, ℤ, is_nonzero, pos, negsuc, zero, suc, true, false, ◌↔◌, Member, refl, inl,
  inr, Bool-cases, text_dec,
}

pub record Credentials : Type 0 where
  pub app_id : ℤ
  pub installation_id : ℤ
  pub pem_key : Text

-- The names of the environment variables.
pub data Variable : Type 0 where
  app_id installation_id pem_key : Variable

-- The client, or the error: some fields are missing, none is set, or the client was not made.
pub data Resolved (A : Type 0) : Type 0 where
  client : A → Resolved A
  partial : List Variable → Resolved A
  not_configured client_error : Resolved A

unfoldable pub app_partial : Credentials → Bool
app_partial c = is_nonzero c.app_id || is_nonzero c.installation_id || not (c.pem_key == [])

unfoldable pub app_complete : Credentials → Bool
app_complete c = is_nonzero c.app_id && is_nonzero c.installation_id && not (c.pem_key == [])

-- The missing variables, in the order of the source.
unfoldable pub missing : Credentials → List Variable
missing c =
    (if is_nonzero c.app_id then [] else Variable.app_id ∷ [])
    ++ ((if is_nonzero c.installation_id then [] else Variable.installation_id ∷ [])
        ++ (if c.pem_key == [] then Variable.pem_key ∷ [] else []))

unfoldable pub made : {A : Type 0} → Option A → Resolved A
made none = client_error
made (some c) = client c

unfoldable pub resolve_github_client :
    {A : Type 0} → (Credentials → Option A) → Credentials → Resolved A
resolve_github_client new_client c =
    if app_partial c && not (app_complete c)
    then partial (missing c)
    else if app_complete c
    then made (new_client c)
    else not_configured

-- The field behind a variable is not set.
abbrev pub IsUnset : Credentials → Variable → Type 0
IsUnset c app_id = c.app_id ≡ pos 0
IsUnset c installation_id = c.installation_id ≡ pos 0
IsUnset c pem_key = c.pem_key ≡ []

zero_iff : (a : ℤ) → (is_nonzero a ≡ false) ↔ (a ≡ pos 0)
zero_iff (pos zero) = ground arith
zero_iff (pos (suc n)) = ground arith
zero_iff (negsuc n) = ground arith

missing-IsUnset : (c : Credentials) (v : Variable) → Member v (missing c) ↔ IsUnset c v
unfolding missing
missing-IsUnset c app_id =
    let a = zero_iff c.app_id in let b = zero_iff c.installation_id in ground arith
missing-IsUnset c installation_id =
    let a = zero_iff c.app_id in let b = zero_iff c.installation_id in ground arith
missing-IsUnset c pem_key =
    let a = zero_iff c.app_id in let b = zero_iff c.installation_id in ground arith

-- With all fields set the App client is made, or making it fails; with none set this is the error;
-- and otherwise, with one set and one not, the error names exactly those that are not.
abbrev pub Resolves : {A : Type 0} → (Credentials → Option A) → Credentials → Resolved A → Type 0
Resolves {A} new_client c resolved =
    (((v : Variable) → IsUnset c v → ⊥)
      × (((k : A) × (new_client c ≡ some k) × (resolved ≡ client k))
          ⊎ ((new_client c ≡ none) × (resolved ≡ client_error))))
    ⊎ (((v : Variable) → IsUnset c v) × (resolved ≡ not_configured))
    ⊎ (((v : Variable) × IsUnset c v)
        × ((v : Variable) × (IsUnset c v → ⊥))
        × ((names : List Variable) × (resolved ≡ partial names)
            × ((v : Variable) → Member v names ↔ IsUnset c v)))

set-ne-zero : (a : ℤ) → is_nonzero a ≡ true → a ≢ pos 0
set-ne-zero a h e = let (_, unset) = zero_iff a in ground (arith, unset e, h)

module _ {A : Type 0} (new_client : Credentials → Option A) (c : Credentials) where
  made-Resolves :
      (made_client : Option A)
      → new_client c ≡ made_client
      → ((k : A) × (new_client c ≡ some k) × (made made_client ≡ client k))
        ⊎ ((new_client c ≡ none) × (made made_client ≡ client_error))
  unfolding made
  made-Resolves (some k) e = inl (k, e, refl)
  made-Resolves none e = inr (e, refl)

  complete-Resolves :
      c.app_id ≢ pos 0
      → c.installation_id ≢ pos 0
      → c.pem_key ≢ []
      → resolve_github_client new_client c ≡ made (new_client c)
      → Resolves new_client c (resolve_github_client new_client c)
  complete-Resolves a i p e =
      subst (Resolves new_client c) (sym e) (inl (each, made-Resolves (new_client c) refl))
    where
      each : (v : Variable) → IsUnset c v → ⊥
      each app_id = a
      each installation_id = i
      each pem_key = p

  absent-Resolves :
      c.app_id ≡ pos 0
      → c.installation_id ≡ pos 0
      → c.pem_key ≡ []
      → resolve_github_client new_client c ≡ not_configured
      → Resolves new_client c (resolve_github_client new_client c)
  absent-Resolves a i p e = inr (inl (each, e))
    where
      each : (v : Variable) → IsUnset c v
      each app_id = a
      each installation_id = i
      each pem_key = p

  partial-Resolves :
      (unset set : Variable)
      → IsUnset c unset
      → (IsUnset c set → ⊥)
      → resolve_github_client new_client c ≡ partial (missing c)
      → Resolves new_client c (resolve_github_client new_client c)
  partial-Resolves unset set u s e =
      inr (inr ((unset, u), (set, s), (missing c, e, missing-IsUnset c)))

  -- If all three fields are set, the result is the App client, or its error if it cannot be made; if
  -- none is set, it is that the App is not configured; and if some are set and some are not, it is an
  -- error that names exactly those that are not.
  pub resolve_github_client-Resolves : Resolves new_client c (resolve_github_client new_client c)
  unfolding resolve_github_client app_partial app_complete
  resolve_github_client-Resolves = elim (Bool-cases (is_nonzero c.app_id)) [
    | inl a ↦ elim (Bool-cases (is_nonzero c.installation_id)) [
      | inl i ↦ elim (text_dec c.pem_key []) [
        | yes p ↦ partial-Resolves pem_key app_id p (set-ne-zero _ a) (ground (arith, a, i, p))
        | no p ↦ complete-Resolves (set-ne-zero _ a) (set-ne-zero _ i) p (ground (arith, a, i, p))
      ]
      | inr i ↦
          partial-Resolves installation_id app_id ((zero_iff _).0 i) (set-ne-zero _ a)
            (ground (arith, a, i))
    ]
    | inr a ↦ elim (Bool-cases (is_nonzero c.installation_id)) [
      | inl i ↦
          partial-Resolves app_id installation_id ((zero_iff _).0 a) (set-ne-zero _ i)
            (ground (arith, a, i))
      | inr i ↦ elim (text_dec c.pem_key []) [
        | yes p ↦ absent-Resolves ((zero_iff _).0 a) ((zero_iff _).0 i) p (ground (arith, a, i, p))
        | no p ↦ partial-Resolves app_id pem_key ((zero_iff _).0 a) p (ground (arith, a, i, p))
      ]
    ]
  ]
