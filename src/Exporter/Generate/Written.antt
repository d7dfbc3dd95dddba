-- ===== src/Exporter/Generate/Written.antt =====
-- The files of GenerateYAML, on a file system that obliges.
use mathlib.Core.Path.{subst}
use zookeeper_operator.Prelude.{String, ◌&◌, Bool, Option, some, [], ◌∷◌, ◌≡◌, refl}
use zookeeper_operator.Prelude.Dict.{Dict, get, entries}
use zookeeper_operator.Std.Filepath.{join}
use zookeeper_operator.Kube.Objects.{StatefulSet}
use zookeeper_operator.Api.Types.{ZookeeperCluster}
use zookeeper_operator.Api.Spec.{with_defaults}
use zookeeper_operator.Zk.Config.{make_config_map}
use zookeeper_operator.Zk.Services.{
  make_service, make_client_service, make_headless_service, make_pod_disruption_budget,
}
use zookeeper_operator.Zk.Workloads.{make_stateful_set}
use zookeeper_operator.Zk.Workloads.Place.{HasPlace, make_stateful_set-HasPlace}
use zookeeper_operator.Zk.Workloads.Total.{make_stateful_set_total}
use zookeeper_operator.Controller.Interfaces.{Result, ok, err}
use zookeeper_operator.Exporter.Files.{
  FileSystem, Manifest, config_map, stateful_set, service, budget, create_output_sub_dir,
  generate_output_yaml_file,
}
use zookeeper_operator.Exporter.Files.Written.{
  Obliges, Wrote, done-Wrote, go_on-Wrote, generate_output-Wrote, create_output_sub_dir-Wrote,
}
use zookeeper_operator.Exporter.Generate.{
  or_empty, component_of, in_sub_dir, export, export_stateful_set, yaml_config_map,
  yaml_stateful_set, yaml_client_service, yaml_headless_service, yaml_pod_disruption_budget,
  generate_all, generate_yaml,
}

-- The files and their texts. The directory of the StatefulSet is named by the label `component`.
abbrev pub exports : (Manifest → String) → ZookeeperCluster → StatefulSet → Dict
exports text z sts =
    ("ZookeeperCluster/pdb/PodDisruptionBudget.yaml", text (budget (make_pod_disruption_budget z)))
    ∷ ("ZookeeperCluster/headless/Service.yaml", text (service (make_headless_service z)))
    ∷ ("ZookeeperCluster/client/Service.yaml", text (service (make_client_service z)))
    ∷ (
      join (join "ZookeeperCluster" (or_empty (get "component" (entries z.spec.labels))))
          "StatefulSet.yaml",
      text (stateful_set sts),
    )
    ∷ ("ZookeeperCluster/config/ConfigMap.yaml", text (config_map (make_config_map z)))
    ∷ []

module _ {W : Type 0} (fs : FileSystem W) (contents : String → W → Option String)
    (text : Manifest → String) (o : Obliges fs contents text) where
  in_sub_dir-Wrote :
      (kind : String) (m : Manifest) (w : W) (r : (String × Result (Unit {0})) × W)
      → Wrote contents [] w (r.0.1, r.1)
      → Wrote contents ((join r.0.0 (kind & "." & "yaml"), text m) ∷ []) w (in_sub_dir fs kind m r)
  unfolding in_sub_dir get
  in_sub_dir-Wrote kind m w ((subdir, ok u), v) h =
      go_on-Wrote contents [] ((join subdir (kind & "." & "yaml"), text m) ∷ []) w (ok u, v)
        (generate_output_yaml_file fs subdir kind m) h
        (generate_output-Wrote fs contents text o subdir kind m)
  in_sub_dir-Wrote kind m w ((subdir, err e), v) h = absurd (let x = h.succeeds in cc)

  export-Wrote :
      (comp kind : String) (m : Manifest) (w : W)
      → Wrote contents
          ((join (join "ZookeeperCluster" comp) (kind & "." & "yaml"), text m) ∷ [])
          w
          (export fs comp kind m w)
  unfolding export create_output_sub_dir
  export-Wrote comp kind m w =
      in_sub_dir-Wrote kind m w (create_output_sub_dir fs "ZookeeperCluster" comp w)
        (create_output_sub_dir-Wrote fs contents text o "ZookeeperCluster" comp w)

  -- the path of the StatefulSet's file
  place_of :
      (z : ZookeeperCluster) (sts : StatefulSet)
      → HasPlace z sts
      → join (join "ZookeeperCluster" (component_of sts)) (sts.type_meta.kind & "." & "yaml")
        ≡ join
            (join "ZookeeperCluster" (or_empty (get "component" (entries z.spec.labels))))
            "StatefulSet.yaml"
  unfolding component_of
  place_of z sts p = rw (p.kind_is, p.labels_are)

  export_stateful_set-Wrote :
      (sts : StatefulSet) (w : W)
      → Wrote contents
          ((
            join (join "ZookeeperCluster" (component_of sts)) (sts.type_meta.kind & "." & "yaml"),
            text (stateful_set sts),
          )
            ∷ [])
          w
          (export_stateful_set fs (some sts) w)
  unfolding export_stateful_set create_output_sub_dir
  export_stateful_set-Wrote sts w =
      let r = create_output_sub_dir fs "ZookeeperCluster" (component_of sts) w in
      let made =
        create_output_sub_dir-Wrote fs contents text o "ZookeeperCluster" (component_of sts) w in
      go_on-Wrote contents [] _ w (ok tt, r.1)
        (generate_output_yaml_file fs r.0.0 sts.type_meta.kind (stateful_set sts))
        (record { succeeds = refl; leaves = made.leaves })
        (generate_output-Wrote fs contents text o r.0.0 sts.type_meta.kind (stateful_set sts))

  yaml_stateful_set-Wrote :
      (z : ZookeeperCluster) (sts : StatefulSet) (w : W)
      → make_stateful_set z ≡ some sts
      → Wrote contents
          ((
            join
                (join "ZookeeperCluster" (or_empty (get "component" (entries z.spec.labels))))
                "StatefulSet.yaml",
            text (stateful_set sts),
          )
            ∷ [])
          w
          (yaml_stateful_set fs z w)
  unfolding yaml_stateful_set
  yaml_stateful_set-Wrote z sts w h = rw h (
      subst
        (λ p.
          Wrote contents ((p, text (stateful_set sts)) ∷ []) w
            (export_stateful_set fs (some sts) w))
        (place_of z sts (make_stateful_set-HasPlace z sts h)) (export_stateful_set-Wrote sts w))

  generate_all-Wrote :
      (z : ZookeeperCluster) (sts : StatefulSet) (w : W)
      → make_stateful_set z ≡ some sts
      → Wrote contents (exports text z sts) w (
          generate_all fs
            (yaml_config_map fs
              ∷ yaml_stateful_set fs
              ∷ yaml_client_service fs
              ∷ yaml_headless_service fs
              ∷ yaml_pod_disruption_budget fs
              ∷ [])
            z
            w)
  unfolding generate_all yaml_config_map yaml_client_service yaml_headless_service
      yaml_pod_disruption_budget make_config_map make_service make_client_service
      make_headless_service make_pod_disruption_budget join
  generate_all-Wrote z sts w h =
      go_on-Wrote contents _ _ w _ _ (export-Wrote "config" "ConfigMap" _ w) (λ v1.
        go_on-Wrote contents _ _ v1 _ _ (yaml_stateful_set-Wrote z sts v1 h) (λ v2.
          go_on-Wrote contents _ _ v2 _ _ (export-Wrote "client" "Service" _ v2) (λ v3.
            go_on-Wrote contents _ _ v3 _ _ (export-Wrote "headless" "Service" _ v3) (λ v4.
              go_on-Wrote contents _ [] v4 _ _ (export-Wrote "pdb" "PodDisruptionBudget" _ v4)
                (done-Wrote contents)))))

  pub generate_yaml-Wrote :
      (is_zero : String → Bool) (z : ZookeeperCluster) (w : W)
      → (sts : StatefulSet) × (make_stateful_set (with_defaults is_zero z).0 ≡ some sts)
        × Wrote contents
            (exports text (with_defaults is_zero z).0 sts)
            w
            (generate_yaml fs is_zero z w)
  unfolding generate_yaml
  generate_yaml-Wrote is_zero z w =
      let (sts, h) = make_stateful_set_total is_zero z in
      (sts, h, generate_all-Wrote (with_defaults is_zero z).0 sts w h)
