-- ===== src/Rfc/Credentials/Chain.antt =====
-- crates/sap-automate-rfc/src/credentials.rs: which provider of a chain decides.
use sap_automate.Base.{
  ◌≡◌, refl, ap, ◌≢◌, ◌⊎◌, inl, inr, Option, none, some, List, [], ◌∷◌, ◌++◌, All, nat_key,
  string_key, pair_key,
}
use sap_automate.Rfc.Error.{RfcResult, ok, err}
use sap_automate.Rfc.Credentials.{Credentials, Env, Provider, fetch_layered, or_next}

-- The first provider of the list that is not empty gives `r`; if all are empty, `r` is that.
abbrev pub FirstGives : Env → List Provider → RfcResult (Option Credentials) → Type 0
FirstGives vars ps r =
    (All (λ p. p vars ≡ ok none) ps × (r ≡ ok none))
    ⊎ ((before : List Provider) × (p : Provider) × (after : List Provider) × (ps
          ≡ before ++ p ∷ after)
        × All (λ q. q vars ≡ ok none) before
        × (p vars ≡ r)
        × (r ≢ ok none))

FirstGives-cons :
    (vars : Env) (p : Provider) (ps : List Provider) (r : RfcResult (Option Credentials))
    → p vars ≡ ok none
    → FirstGives vars ps r
    → FirstGives vars (p ∷ ps) r
FirstGives-cons vars p ps r e (inl (all, same)) = inl ((e, all), same)
FirstGives-cons vars p ps r e (inr (before, q, after, split, empty, gives, full)) =
    inr (p ∷ before, q, after, ap (◌∷◌ p) split, (e, empty), gives, full)

or_next-FirstGives :
    (vars : Env) (p : Provider) (ps : List Provider) (r rest : RfcResult (Option Credentials))
    → p vars ≡ r
    → FirstGives vars ps rest
    → FirstGives vars (p ∷ ps) (or_next r rest)
unfolding or_next
or_next-FirstGives vars p ps (ok none) rest e h = FirstGives-cons vars p ps rest e h
or_next-FirstGives vars p ps (ok (some c)) rest e h = inr ([], p, ps, refl, tt, e, λ same. cc)
or_next-FirstGives vars p ps (err x) rest e h = inr ([], p, ps, refl, tt, e, λ same. cc)

-- A chain of providers answers with what its first provider that is not empty answers, credentials or an
-- error, and is empty exactly when all are. So an error of an earlier provider stops the chain, where
-- the source's comment says that the first that returns credentials wins.
pub fetch_layered-FirstGives :
    (vars : Env) (ps : List Provider) → FirstGives vars ps (fetch_layered ps vars)
unfolding fetch_layered or_next
fetch_layered-FirstGives vars [] = inl (tt, refl)
fetch_layered-FirstGives vars (p ∷ ps) =
    or_next-FirstGives vars p ps (p vars) (fetch_layered ps vars) refl
      (fetch_layered-FirstGives vars ps)
