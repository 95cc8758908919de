-- ===== src/Connections/Lifecycle.antt =====
-- The life of a connection's row: domains/connections/policies.py says which transitions a request
-- may ask for, and the UPDATEs of infrastructure/db/connection_repository.py carry them out.
use bff.Prelude.{
  str_eq, if◌then◌else◌, none, List, any, ◌==◌, ◌&&◌, Bool, differ, ℕ, String, ◌≡◌, refl, true, ◌≢◌,
  ◌⊎◌, inl, some,
}
use bff.Db.{RevisionRow, ConnectionRow}
use bff.Connections.Models.{ConnectionLifecycleAction, disable, enable, archive, ConnectionStatus}
use bff.Connections.Values.{status_value}
use bff.Connections.Policies.{lifecycle_transition_allowed}
use bff.Connections.Repository.Commands.{target}

-- A revision of this connection is there.
abbrev pub has_revision : List RevisionRow → ConnectionRow → Bool
has_revision revisions c =
    any (λ r. r.workspace_id == c.workspace_id && r.connection_id == c.id) revisions

-- The transitions: a first publication activates a draft, and requests disable, enable and archive.
-- `published` says whether the connection has a revision after the transition.
pub data Move (published : Bool) : String → String → Type 0 where
  activated : published ≡ true → Move published "DRAFT" "ACTIVE"
  disabled : Move published "ACTIVE" "DISABLED"
  enabled : Move published "DISABLED" "ACTIVE"
  archived : {s : String} → s ≢ "ARCHIVED" → Move published s "ARCHIVED"

-- What a request at the time `now` that leaves `revisions` may make of a row.
pub record Evolves (now : ℕ) (revisions : List RevisionRow) (c d : ConnectionRow) : Type 0 where
  pub same_id : d.id ≡ c.id
  pub same_workspace : d.workspace_id ≡ c.workspace_id
  pub same_provider : d.provider_key ≡ c.provider_key
  pub same_created : d.created_at ≡ c.created_at
  pub frozen : c.status ≡ "ARCHIVED" → d ≡ c
  pub moves :
      ((d.status ≡ c.status) × (d.archived_at ≡ c.archived_at))
      ⊎ (Move (has_revision revisions d) c.status d.status
          × (d.archived_at ≡ (if str_eq d.status "ARCHIVED" then some now else c.archived_at)))

-- The row of a new connection.
pub record IsBorn (now : ℕ) (c : ConnectionRow) : Type 0 where
  pub draft : c.status ≡ "DRAFT"
  pub unarchived : c.archived_at ≡ none
  pub created : c.created_at ≡ now

pub Evolves-refl :
    (now : ℕ) (revisions : List RevisionRow) (c : ConnectionRow) → Evolves now revisions c c
Evolves-refl now revisions c = record {
  same_id = refl;
  same_workspace = refl;
  same_provider = refl;
  same_created = refl;
  moves = inl (refl, refl);
  frozen = λ _. refl;
}

-- The transition that a request has been allowed.
pub allowed-Move :
    (b : Bool) (s : ConnectionStatus) (action : ConnectionLifecycleAction)
    → lifecycle_transition_allowed s action ≡ true
    → Move b (status_value s) (status_value (target action))
unfolding lifecycle_transition_allowed
allowed-Move b ConnectionStatus.active disable h = Move.disabled
allowed-Move b ConnectionStatus.disabled enable h = Move.enabled
allowed-Move b ConnectionStatus.draft archive h = Move.archived (differ _ "ARCHIVED" refl)
allowed-Move b ConnectionStatus.active archive h = Move.archived (differ _ "ARCHIVED" refl)
allowed-Move b ConnectionStatus.disabled archive h = Move.archived (differ _ "ARCHIVED" refl)
allowed-Move b ConnectionStatus.archived archive h = absurd cc
allowed-Move b ConnectionStatus.draft disable h = absurd cc
allowed-Move b ConnectionStatus.disabled disable h = absurd cc
allowed-Move b ConnectionStatus.archived disable h = absurd cc
allowed-Move b ConnectionStatus.draft enable h = absurd cc
allowed-Move b ConnectionStatus.active enable h = absurd cc
allowed-Move b ConnectionStatus.archived enable h = absurd cc

pub Move-live : (b : Bool) (s t : String) → Move b s t → s ≢ "ARCHIVED"
Move-live b s t (Move.activated _) = differ "DRAFT" "ARCHIVED" refl
Move-live b s t Move.disabled = differ "ACTIVE" "ARCHIVED" refl
Move-live b s t Move.enabled = differ "DISABLED" "ARCHIVED" refl
Move-live b s t (Move.archived n) = n

-- The row that _UPDATE_LIFECYCLE makes.
abbrev pub lifecycle_row : ℕ → ConnectionLifecycleAction → ConnectionRow → ConnectionRow
lifecycle_row now action c = record c {
  status = status_value (target action);
  archived_at =
      if str_eq (status_value (target action)) "ARCHIVED" then some now else c.archived_at;
  updated_at = now;
}
