-- ===== src/Recipe/Login.antt =====
-- buildLogin of internal/worker/worker.go and of internal/walkthrough/generator.go: the login that a
-- target's stored recipe gives. Of the messages the text of a nested error is left out.
use auditloop.Base.{
  ◌≡◌, refl, inl, inr, ◌⊎◌, false, Option, none, some, List, if◌then◌else◌, is_some, Bool-cases,
  Str, codes, eqb, is_empty,
}
use auditloop.Db.Targets.{Target}
use auditloop.Recipe.{Step, validate}

pub record Login : Type 0 where
  pub steps : List Step
  pub credentials : List (Str × Str)

-- The stored bytes of a login recipe: the steps and the credentials.
pub record LoginRecipe : Type 0 where
  pub steps_json : Str
  pub creds_encrypted : Str

-- The recipes by the id of their target, the cipher, nothing when there is no key, and what
-- recipe.ParseSteps and ParseCredentials give.
pub record Vault : Type 0 where
  pub login_recipes : Str → Option LoginRecipe
  pub decrypt : Option (Str → Option Str)
  pub parse_steps : Str → Option (List Step)
  pub parse_credentials : Str → Option (List (Str × Str))

abbrev pub login_of : List Step → Option (List (Str × Str)) → Str ⊎ Option Login
login_of steps none = inl (codes "stored login credentials are malformed")
login_of steps (some creds) = inr (some (record { steps = steps; credentials = creds }))

module _ (vault : Vault) where
  abbrev pub login_decrypted : List Step → Option Str → Str ⊎ Option Login
  login_decrypted steps none = inl (codes "could not decrypt login credentials (key rotated?)")
  login_decrypted steps (some plain) = login_of steps (vault.parse_credentials plain)

  unfoldable pub login_steps :
      (Str → Option Str) → LoginRecipe → Option (List Step) → Str ⊎ Option Login
  unfolding validate
  login_steps decrypt recipe none = inl (codes "stored login recipe is invalid")
  login_steps decrypt recipe (some steps) =
      if is_some (validate steps)
      then inl (codes "stored login recipe is invalid")
      else login_decrypted steps (decrypt recipe.creds_encrypted)

  unfoldable pub login_recipe : (Str → Option Str) → Option LoginRecipe → Str ⊎ Option Login
  unfolding login_steps
  login_recipe decrypt none = inl (codes "login recipe not found for target")
  login_recipe decrypt (some recipe) =
      login_steps decrypt recipe (vault.parse_steps recipe.steps_json)

  unfoldable pub login_with : Option (Str → Option Str) → Option LoginRecipe → Str ⊎ Option Login
  unfolding login_recipe
  login_with none recipe = inl (
      codes
        "target requires login but no encryption key is configured (set AUDITLOOP_ENCRYPTION_KEY)")
  login_with (some decrypt) recipe = login_recipe decrypt recipe

  -- The message of an error, or the login if the target needs one.
  unfoldable pub build_login : Target → Str ⊎ Option Login
  unfolding eqb login_with
  build_login tgt =
      if eqb tgt.auth_mode (codes "login")
      then login_with vault.decrypt (vault.login_recipes tgt.id)
      else inr none

-- An error that says something.
abbrev pub HasMessage : Str ⊎ Option Login → Type 0
HasMessage (inl message) = is_empty message ≡ false
HasMessage (inr login) = Unit

module _ (vault : Vault) where
  login_of-HasMessage :
      (steps : List Step) (creds : Option (List (Str × Str))) → HasMessage (login_of steps creds)
  login_of-HasMessage steps none = refl
  login_of-HasMessage steps (some creds) = tt

  login_decrypted-HasMessage :
      (steps : List Step) (plain : Option Str) → HasMessage (login_decrypted vault steps plain)
  login_decrypted-HasMessage steps none = refl
  login_decrypted-HasMessage steps (some plain) =
      login_of-HasMessage steps (vault.parse_credentials plain)

  login_steps-HasMessage :
      (decrypt : Str → Option Str) (recipe : LoginRecipe) (steps : Option (List Step))
      → HasMessage (login_steps vault decrypt recipe steps)
  unfolding login_steps
  login_steps-HasMessage decrypt recipe none = refl
  login_steps-HasMessage decrypt recipe (some steps) =
      elim (Bool-cases (is_some (validate steps))) [
        | inl e ↦ rw e refl
        | inr e ↦ rw e (login_decrypted-HasMessage steps (decrypt recipe.creds_encrypted))
      ]

  login_recipe-HasMessage :
      (decrypt : Str → Option Str) (recipe : Option LoginRecipe)
      → HasMessage (login_recipe vault decrypt recipe)
  unfolding login_recipe
  login_recipe-HasMessage decrypt none = refl
  login_recipe-HasMessage decrypt (some recipe) =
      login_steps-HasMessage decrypt recipe (vault.parse_steps recipe.steps_json)

  login_with-HasMessage :
      (decrypt : Option (Str → Option Str)) (recipe : Option LoginRecipe)
      → HasMessage (login_with vault decrypt recipe)
  unfolding login_with
  login_with-HasMessage none recipe = refl
  login_with-HasMessage (some decrypt) recipe = login_recipe-HasMessage decrypt recipe

  -- An error of the login says something.
  pub build_login-HasMessage : (tgt : Target) → HasMessage (build_login vault tgt)
  unfolding build_login
  build_login-HasMessage tgt = elim (Bool-cases (eqb tgt.auth_mode (codes "login"))) [
    | inl e ↦ rw e (login_with-HasMessage vault.decrypt (vault.login_recipes tgt.id))
    | inr e ↦ rw e tt
  ]
