-- ===== src/Zk/Config/RoundTrip.antt =====
-- What is read of zoo.cfg and of env.sh.
use text.Mathlib.TextLemmas.{nil-append, append-nil, append_assoc}
use zookeeper_operator.Prelude.{
  ℤ, String, ◌&◌, Bool, true, false, [], ◌∷◌, ◌++◌, ◌≡◌, refl, sym, ◌∙◌, ap,
}
use zookeeper_operator.Prelude.Dict.{Dict, entries}
use zookeeper_operator.Std.Strconv.{itoa, format_bool}
use zookeeper_operator.Std.Strings.Split.Join.{has_char, split-append}
use zookeeper_operator.Api.Types.{ZookeeperCluster}
use zookeeper_operator.Api.Ports.{zookeeper_ports}
use zookeeper_operator.Api.Spec.{get_client_service_name, get_admin_server_service_name}
use zookeeper_operator.Zk.Names.{headless_domain}
use zookeeper_operator.Zk.Config.{
  line, additional_lines, make_zk_config_string, make_zk_env_config_string,
}
use zookeeper_operator.Zk.Config.Reader.{
  read_settings, FitsLine, FitLines, has_char-itoa, read_settings-lines,
}

-- The settings of zoo.cfg that the operator adds to those of the user.
abbrev pub own_settings : ZookeeperCluster → Dict
own_settings z =
    let conf = z.spec.conf in
    let ports = zookeeper_ports z.spec.ports in
    ("4lw.commands.whitelist", "cons, envi, conf, crst, srvr, stat, mntr, ruok")
    ∷ ("dataDir", "/data")
    ∷ ("standaloneEnabled", "false")
    ∷ ("reconfigEnabled", "true")
    ∷ ("skipACL", "yes")
    ∷ (
      "metricsProvider.className",
      "org.apache.zookeeper.metrics.prometheus.PrometheusMetricsProvider",
    )
    ∷ ("metricsProvider.httpPort", itoa ports.metrics)
    ∷ ("metricsProvider.exportJvmInfo", "true")
    ∷ ("initLimit", itoa conf.init_limit)
    ∷ ("syncLimit", itoa conf.sync_limit)
    ∷ ("tickTime", itoa conf.tick_time)
    ∷ ("globalOutstandingLimit", itoa conf.global_outstanding_limit)
    ∷ ("preAllocSize", itoa conf.pre_alloc_size)
    ∷ ("snapCount", itoa conf.snap_count)
    ∷ ("commitLogCount", itoa conf.commit_log_count)
    ∷ ("snapSizeLimitInKb", itoa conf.snap_size_limit_in_kb)
    ∷ ("maxCnxns", itoa conf.max_cnxns)
    ∷ ("maxClientCnxns", itoa conf.max_client_cnxns)
    ∷ ("minSessionTimeout", itoa conf.min_session_timeout)
    ∷ ("maxSessionTimeout", itoa conf.max_session_timeout)
    ∷ ("autopurge.snapRetainCount", itoa conf.auto_purge_snap_retain_count)
    ∷ ("autopurge.purgeInterval", itoa conf.auto_purge_purge_interval)
    ∷ ("quorumListenOnAllIPs", format_bool conf.quorum_listen_on_all_ips)
    ∷ ("admin.serverPort", itoa ports.admin_server)
    ∷ ("dynamicConfigFile", "/data/zoo.cfg.dynamic")
    ∷ []

-- The variables of env.sh.
abbrev pub environment : ZookeeperCluster → Dict
environment z =
    let ports = zookeeper_ports z.spec.ports in
    ("DOMAIN", headless_domain z)
    ∷ ("QUORUM_PORT", itoa ports.quorum)
    ∷ ("LEADER_PORT", itoa ports.leader)
    ∷ ("CLIENT_HOST", get_client_service_name z)
    ∷ ("CLIENT_PORT", itoa ports.client)
    ∷ ("ADMIN_SERVER_HOST", get_admin_server_service_name z)
    ∷ ("ADMIN_SERVER_PORT", itoa ports.admin_server)
    ∷ ("CLUSTER_NAME", z.meta.name)
    ∷ ("CLUSTER_SIZE", itoa z.spec.replicas)
    ∷ []

additional_lines-append :
    (m n : Dict) → additional_lines (m ++ n) ≡ additional_lines m & additional_lines n
unfolding additional_lines
additional_lines-append [] n = rw nil-append
additional_lines-append ((key, value) ∷ m) n =
    rw (additional_lines-append m n)
      (sym (append_assoc (line key value) (additional_lines m) (additional_lines n)))

FitLines-append : (m n : Dict) → FitLines m → FitLines n → FitLines (m ++ n)
FitLines-append [] n h k = k
FitLines-append (_ ∷ m) n (h, hs) k = (h, FitLines-append m n hs k)

-- The key is known, so that its tests compute.
module _ (key : String) (h : has_char b'=' key ≡ false) (k : has_char b'\n' key ≡ false) where
  fixed : {value : String} → has_char b'\n' value ≡ false → FitsLine key value
  fixed e = record { key_has_no_equals = h; key_is_one_line = k; value_is_one_line = e }

  number : (n : ℤ) → FitsLine key (itoa n)
  number n = fixed (has_char-itoa n)

has_char-format_bool : (b : Bool) → has_char b'\n' (format_bool b) ≡ false
has_char-format_bool true = unfold format_bool in refl
has_char-format_bool false = unfold format_bool in refl

own_settings-FitLines : (z : ZookeeperCluster) → FitLines (own_settings z)
own_settings-FitLines z = (
  fixed _ refl refl refl,
  (
    fixed _ refl refl refl,
    (
      fixed _ refl refl refl,
      (
        fixed _ refl refl refl,
        (
          fixed _ refl refl refl,
          (
            fixed _ refl refl refl,
            (
              number _ refl refl _,
              (
                fixed _ refl refl refl,
                (
                  number _ refl refl _,
                  (
                    number _ refl refl _,
                    (
                      number _ refl refl _,
                      (
                        number _ refl refl _,
                        (
                          number _ refl refl _,
                          (
                            number _ refl refl _,
                            (
                              number _ refl refl _,
                              (
                                number _ refl refl _,
                                (
                                  number _ refl refl _,
                                  (
                                    number _ refl refl _,
                                    (
                                      number _ refl refl _,
                                      (
                                        number _ refl refl _,
                                        (
                                          number _ refl refl _,
                                          (
                                            number _ refl refl _,
                                            (
                                              fixed _ refl refl (
                                                  has_char-format_bool
                                                    z.spec.conf.quorum_listen_on_all_ips),
                                              (number _ refl refl _, (fixed _ refl refl refl, tt)),
                                            ),
                                          ),
                                        ),
                                      ),
                                    ),
                                  ),
                                ),
                              ),
                            ),
                          ),
                        ),
                      ),
                    ),
                  ),
                ),
              ),
            ),
          ),
        ),
      ),
    ),
  ),
)

config_lines :
    (z : ZookeeperCluster)
    → make_zk_config_string z
      ≡ additional_lines (entries z.spec.conf.additional_config ++ own_settings z)
unfolding make_zk_config_string
config_lines z =
    rw (additional_lines-append (entries z.spec.conf.additional_config) (own_settings z)) (
      ap (λ t. additional_lines (entries z.spec.conf.additional_config) & t)
        (unfold additional_lines in refl))

-- Where no key of AdditionalConfig holds a `=` and neither key nor value a newline: reading zoo.cfg
-- line by line gives the user's settings and then the operator's, with the numbers of the
-- specification, in this order and nothing else.
pub read_settings-make_zk_config_string :
    (z : ZookeeperCluster)
    → FitLines (entries z.spec.conf.additional_config)
    → read_settings (make_zk_config_string z)
      ≡ entries z.spec.conf.additional_config ++ own_settings z
read_settings-make_zk_config_string z h = rw (config_lines z) (
    read_settings-lines (entries z.spec.conf.additional_config ++ own_settings z) (
      FitLines-append (entries z.spec.conf.additional_config) (own_settings z) h
        (own_settings-FitLines z)))

-- The first line, and the empty one behind it, are no settings.
read_settings_behind_shebang :
    (s : String) → read_settings ("#!/usr/bin/env bash\n\n" & s) ≡ read_settings s
unfolding read_settings
read_settings_behind_shebang s =
    ap read_settings (
      append_assoc "#!/usr/bin/env bash\n" "\n" s
      ∙ append_assoc "#!/usr/bin/env bash" "\n" ("\n" & s))
    ∙ rw (
      split-append b'\n' "\n" "\n" "#!/usr/bin/env bash" ("\n" & s) refl refl refl,
      ← nil-append ("\n" & s),
      split-append b'\n' "\n" "\n" "" s refl refl refl,
    )

environment_lines :
    (z : ZookeeperCluster)
    → make_zk_env_config_string z ≡ "#!/usr/bin/env bash\n\n" & additional_lines (environment z)
unfolding make_zk_env_config_string additional_lines
environment_lines z = rw append-nil

-- The names that env.sh hands to the shell stand on one line each.
pub record HasPlainNames (z : ZookeeperCluster) : Type 0 where
  pub domain_is_one_line : has_char b'\n' (headless_domain z) ≡ false
  pub client_is_one_line : has_char b'\n' (get_client_service_name z) ≡ false
  pub admin_is_one_line : has_char b'\n' (get_admin_server_service_name z) ≡ false
  pub name_is_one_line : has_char b'\n' z.meta.name ≡ false

environment-FitLines : (z : ZookeeperCluster) → HasPlainNames z → FitLines (environment z)
environment-FitLines z h = (
  fixed _ refl refl h.domain_is_one_line,
  (
    number _ refl refl _,
    (
      number _ refl refl _,
      (
        fixed _ refl refl h.client_is_one_line,
        (
          number _ refl refl _,
          (
            fixed _ refl refl h.admin_is_one_line,
            (
              number _ refl refl _,
              (fixed _ refl refl h.name_is_one_line, (number _ refl refl _, tt)),
            ),
          ),
        ),
      ),
    ),
  ),
)

-- Where the cluster's name, the names of its services and their domain hold no newline: reading
-- env.sh line by line gives the nine variables, with the ports and the size of the specification.
pub read_settings-make_zk_env_config_string :
    (z : ZookeeperCluster)
    → HasPlainNames z
    → read_settings (make_zk_env_config_string z) ≡ environment z
read_settings-make_zk_env_config_string z h =
    rw (environment_lines z, read_settings_behind_shebang (additional_lines (environment z)))
      (read_settings-lines (environment z) (environment-FitLines z h))
