-- ===== src/Connections/Providers.antt =====
-- domains/connections/providers.py: the registry of typed provider configurations.
pub mod Lookup
use bff.Prelude.{ℕ, not, Option, none, some, List, [], ◌∷◌, ◌==◌, if◌then◌else◌, length}
use bff.Result.{Result, ok, err, value_error, provider_configuration, ◌>>=◌}
use bff.Text.{Text, text_eq}
use bff.Json.{JsonObject, obj}
use bff.Json.Dumps.{dumps, encode}
use bff.Connections.Models.{PublishedConnectionConfiguration}

-- `class ConnectionProvider(Protocol)`
pub record ConnectionProvider : Type 0 where
  pub key : Text
  pub definition_schema_version : ℕ
  pub canonicalize : JsonObject → Result JsonObject

-- The dict from keys to providers, in the order of insertion.
pub record ConnectionProviderRegistry : Type 0 where
  pub providers : List (Text × ConnectionProvider)

-- `mapped[key] = provider`
abbrev pub put :
    Text → ConnectionProvider → List (Text × ConnectionProvider) → List (Text × ConnectionProvider)
put k p [] = (k, p) ∷ []
put k p ((j, q) ∷ m) = if text_eq j k then (j, p) ∷ m else (j, q) ∷ put k p m

unfoldable pub mapped :
    List ConnectionProvider → List (Text × ConnectionProvider) → List (Text × ConnectionProvider)
mapped [] m = m
mapped (p ∷ ps) m = mapped ps (put p.key p m)

-- `__init__`
unfoldable pub registry : List ConnectionProvider → Result ConnectionProviderRegistry
unfolding mapped
registry ps =
    let m = mapped ps [] in
    if not (length m == length ps) then err value_error else ok (record { providers = m })

abbrev pub get : Text → List (Text × ConnectionProvider) → Option ConnectionProvider
get k [] = none
get k ((j, p) ∷ m) = if text_eq j k then some p else get k m

unfoldable pub require : ConnectionProviderRegistry → Text → Result ConnectionProvider
require r provider_key = elim (get provider_key r.providers) [
  | none ↦ err provider_configuration
  | some p ↦ ok p
]

-- `sha256` is `hashlib.sha256(...).digest()`.
unfoldable pub publish :
    (List ℕ → List ℕ)
    → ConnectionProviderRegistry
    → Text
    → JsonObject
    → Result PublishedConnectionConfiguration
publish sha256 r provider_key configuration = do
  provider ← require r provider_key
  canonical ← provider.canonicalize configuration
  let serialized = encode (dumps (obj canonical))
  ok (record {
    definition_schema_version = provider.definition_schema_version;
    configuration = canonical;
    config_hash = sha256 serialized;
  })

unfoldable pub compile_draft : ConnectionProviderRegistry → Text → JsonObject → Result JsonObject
compile_draft r provider_key configuration = do
  provider ← require r provider_key
  provider.canonicalize configuration
