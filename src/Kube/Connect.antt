-- ===== src/Kube/Connect.antt =====
-- How internal/kube/client.go makes its client.
use chatops.Base.{String, Option, none, some}
use chatops.Effects.{Result, ok, err}
use chatops.Kube.Api.{Api}
use chatops.Kube.Log.{K8sClient, nil_clientset, clientset}

-- What it calls of client-go: clientcmd.BuildConfigFromFlags("", path), rest.InClusterConfig and
-- kubernetes.NewForConfig. `C` is a rest.Config.
pub record ClientGo (W C : Type 0) : Type 0 where
  pub build_config : String → Result C
  pub in_cluster_config : Result C
  pub new_for_config : C → Result (Api W)

-- NewTestClient, on a clientset that is there.
abbrev pub new_test_client : {W : Type 0} → Api W → K8sClient W
new_test_client api = clientset api

-- GetClientset: the clientset, which may be nil.
abbrev pub get_clientset : {W : Type 0} → K8sClient W → Option (Api W)
get_clientset nil_clientset = none
get_clientset (clientset api) = some api

module _ {W C : Type 0} (go : ClientGo W C) where
  abbrev connected : Result (Api W) → Result (K8sClient W)
  connected (err e) = err e
  connected (ok cs) = ok (clientset cs)

  -- initClient
  unfoldable pub init_client : C → Result (K8sClient W)
  init_client config = connected (go.new_for_config config)

  abbrev configured : Result C → Result (K8sClient W)
  configured (err e) = err e
  configured (ok config) = init_client config

  -- InitClientFromKubeconfig
  unfoldable pub init_client_from_kubeconfig : String → Result (K8sClient W)
  unfolding init_client
  init_client_from_kubeconfig path = configured (go.build_config path)

  -- InitInCluster
  unfoldable pub init_in_cluster : Result (K8sClient W)
  unfolding init_client
  init_in_cluster = configured go.in_cluster_config
