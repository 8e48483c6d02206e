-- ===== src/Loader/Checks.antt =====
-- loader.rs, `load`: what the checks before the start of a backend let through.
use mehoy_malloy_ai_runtime.Common.{
  ◌≡◌, refl, sym, ap, ◌∙◌, Bool, true, false, not, Option, none, some, if◌then◌else◌, Result, ok,
  err, ◌>>=◌,
}
use mehoy_malloy_ai_runtime.Common.Text.{Text}
use mehoy_malloy_ai_runtime.Compatibility.{assess, permits_start}
use mehoy_malloy_ai_runtime.Registry.{
  ArtifactFingerprint, ModelArtifact, ArtifactState, unchanged, missing, changed, detect_drift,
}
use mehoy_malloy_ai_runtime.Registry.Store.{RegistryError}
use mehoy_malloy_ai_runtime.Registry.Table.{bind-ok}
use mehoy_malloy_ai_runtime.Registry.Operations.{Database, get}
use mehoy_malloy_ai_runtime.Loader.Loading.{
  LoadFailure, describe, as_found, from_registry, if_unchanged, resolve, preflight,
}

-- What is known of an artifact that passed the checks: it is the registered one, its file has not
-- changed since, and the backend may be started for it.
abbrev pub IsSound :
    {Db : Type 0}
    → Database Db
    → (Text → Result ArtifactFingerprint Text)
    → Text
    → Db
    → ModelArtifact
    → Type 0
IsSound database observe id db a =
    (get database id db ≡ ok (some a))
    × (detect_drift (observe a.path) a ≡ unchanged)
    × (permits_start (assess (describe a)) ≡ true)

from_registry_ok :
    {A : Type 0} (r : Result A RegistryError) (a : A) → from_registry r ≡ ok a → r ≡ ok a
from_registry_ok (ok b) a h = cc
from_registry_ok (err e) a h = cc

as_found_ok :
    (id : Text) (o : Option ModelArtifact) (a : ModelArtifact) → as_found id o ≡ ok a → o ≡ some a
as_found_ok id none a h = cc
as_found_ok id (some b) a h = cc

if_unchanged_ok :
    (id : Text) (b a : ModelArtifact) (s : ArtifactState)
    → if_unchanged id b s ≡ ok a
    → (s ≡ unchanged) × (b ≡ a)
if_unchanged_ok id b a unchanged h = (refl, cc)
if_unchanged_ok id b a missing h = cc
if_unchanged_ok id b a (changed d) h = cc

preflight_ok :
    (b a : ModelArtifact)
    → preflight b ≡ ok a
    → (permits_start (assess (describe b)) ≡ true) × (b ≡ a)
unfolding preflight
preflight_ok b a h = gated _ (permits_start (assess (describe b))) h
  where
    gated :
        (e : LoadFailure) (p : Bool)
        → ◌≡◌ {A = Result ModelArtifact LoadFailure} (if not p then err e else ok b) (ok a)
        → (p ≡ true) × (b ≡ a)
    gated e true h = (refl, cc)
    gated e false h = cc

pub checks_ok :
    {Db : Type 0} (database : Database Db) (observe : Text → Result ArtifactFingerprint Text)
    (id : Text) (db : Db) (a : ModelArtifact)
    → (resolve database observe id db >>= preflight) ≡ ok a
    → IsSound database observe id db a
unfolding resolve
checks_ok database observe id db a h =
    let (b, resolved, passed) = bind-ok (resolve database observe id db) preflight a h in
    let (may, same) = preflight_ok b a passed in
    let (row, got, h1) = bind-ok (from_registry (get database id db)) _ b resolved in
    let (c, there, h2) = bind-ok (as_found id row) _ b h1 in
    let (still, same') = if_unchanged_ok id c b (detect_drift (observe c.path) c) h2 in
    let row_is : row ≡ some c = as_found_ok id row c there in
    let got_is : get database id db ≡ ok row = from_registry_ok _ row got in
    let e : c ≡ a = same' ∙ same in
    (got_is ∙ ap ok (row_is ∙ ap some e), rw (sym e) still, rw (sym same) may)
