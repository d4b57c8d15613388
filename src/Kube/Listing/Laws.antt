-- ===== src/Kube/Listing/Laws.antt =====
-- The order and the content of a list of revisions.
use mathlib.Core.List.{Perm}
use chatops.Base.{List, [], ◌∷◌, ◌≡◌, String, ◌≢◌}
use chatops.Kube.Types.{ReplicaSet}
use chatops.Kube.Listing.{lower, RevisionInfo, get, revision_key, info}
use chatops.Kube.Api.{Api}
use chatops.Go.Sort.{IsSorted}
use chatops.Effects.{ok}

-- Each entry stands for a ReplicaSet of the list that has a revision annotation.
pub data FromSets : List ReplicaSet → List RevisionInfo → Type 0 where
  none_left : FromSets [] []
  passed_over :
      {sets : List ReplicaSet} {infos : List RevisionInfo} (rs : ReplicaSet)
      → get revision_key rs.annotations ≡ ""
      → FromSets sets infos
      → FromSets (rs ∷ sets) infos
  listed :
      {sets : List ReplicaSet} {infos : List RevisionInfo} (rs : ReplicaSet)
      → get revision_key rs.annotations ≢ ""
      → FromSets sets infos
      → FromSets (rs ∷ sets) (info rs ∷ infos)

module _ {W : Type 0} (api : Api W) (namespace name : String) where
  -- A list of revisions is in ascending order, and is a rearrangement of one entry for each
  -- ReplicaSet of the deployment's selector that has the annotation.
  pub record Lists (infos : List RevisionInfo) : Type 0 where
    pub items : List ReplicaSet
    pub read :
        (selector : String) × (w v : W) × (api.list_replica_sets namespace selector w
          ≡ (ok items, v))
    pub entries : List RevisionInfo
    pub from : FromSets items entries
    pub same : Perm infos entries
    pub ascending : IsSorted lower infos
