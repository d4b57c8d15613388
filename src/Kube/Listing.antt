-- ===== src/Kube/Listing.antt =====
-- The reads of internal/kube/client.go: GetPodStatus, ListAvailableRevisions, GetPodLogs, ListPods.
pub mod Laws
use Prim.Native.String.{◌++◌}
use chatops.Base.{
  Bool, false, String, Option, none, some, List, [], ◌∷◌, ltb_ℤ, if◌then◌else◌, str_eq,
}
use chatops.Go.Maps.{get}
use chatops.Go.Numbers.{sscan_int}
use chatops.Go.Sort.{sort}
use chatops.Effects.{Eff, Outcome, done, fail, pure, raise, crash, on_error, ◌>>=◌, outcome}
use chatops.Kube.Types.{Container, ReplicaSet, RevisionInfo, PodLogsOptions, PodLogOptions}
use chatops.Kube.Api.{Run, Api, call}
use chatops.Kube.Log.{K8sClient, nil_clientset, clientset}
use chatops.Kube.Rollback.Target.{revision_key}

abbrev first_image : List Container → String
first_image [] = ""
first_image (c ∷ _) = c.image

abbrev pub info : ReplicaSet → RevisionInfo
info rs = record {
  revision = sscan_int (get revision_key rs.annotations);
  rs_name = rs.name;
  image = first_image rs.template.containers;
}

-- The loop that collects the revisions; a ReplicaSet without the annotation is passed over.
unfoldable pub collect : List ReplicaSet → List RevisionInfo
collect [] = []
collect (rs ∷ sets) =
    if str_eq (get revision_key rs.annotations) "" then collect sets else info rs ∷ collect sets

-- The less function of the sort.
abbrev pub lower : RevisionInfo → RevisionInfo → Bool
lower a b = ltb_ℤ a.revision b.revision

abbrev pub log_options : Option PodLogsOptions → PodLogOptions
log_options none = record {
  previous = false;
  tail_lines = none;
  since_seconds = none;
  timestamps = false;
}
log_options (some o) = record {
  previous = o.previous;
  tail_lines = some o.tail_lines;
  since_seconds = some o.since_seconds;
  timestamps = o.timestamps;
}

module _ {W : Type 0} where
  unfoldable pub list_available_revisions :
      K8sClient W → String → String → Eff (Run W) (List RevisionInfo)
  unfolding collect
  list_available_revisions nil_clientset namespace name = crash
  list_available_revisions (clientset api) namespace name = do
    dep ← call (api.get_deployment namespace name)
    selector ← λ s. (outcome (api.label_selector dep.selector), s)
    items ← call (api.list_replica_sets namespace selector)
    pure (sort lower (collect items))

  unfoldable pub get_pod_status : K8sClient W → String → String → Eff (Run W) String
  get_pod_status nil_clientset namespace pod_name = crash
  get_pod_status (clientset api) namespace pod_name = call (api.get_pod_phase namespace pod_name)

  unfoldable pub get_pod_logs :
      K8sClient W → String → String → Option PodLogsOptions → Eff (Run W) String
  get_pod_logs nil_clientset namespace pod_name opts = raise "client not initialized"
  get_pod_logs (clientset api) namespace pod_name opts =
      on_error (call (api.get_pod_logs namespace pod_name (log_options opts)))
        λ e. raise ("ошибка получения логов пода " ++ pod_name ++ ": " ++ e)

  unfoldable pub list_pods : K8sClient W → String → Eff (Run W) (List String)
  list_pods nil_clientset namespace = raise "client not initialized"
  list_pods (clientset api) namespace =
      on_error (call (api.list_pod_names namespace))
        λ e. raise ("ошибка получения списка подов: " ++ e)
