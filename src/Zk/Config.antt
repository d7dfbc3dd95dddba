-- ===== src/Zk/Config.antt =====
-- pkg/zk/generators.go: the files of the cluster's ConfigMap.
pub mod Reader
pub mod RoundTrip
use zookeeper_operator.Prelude.{String, ◌&◌, none, [], ◌∷◌}
use zookeeper_operator.Prelude.Dict.{Dict, entries}
use zookeeper_operator.Std.Strconv.{itoa, format_bool}
use zookeeper_operator.Kube.Meta.{no_meta}
use zookeeper_operator.Kube.Objects.{ConfigMap}
use zookeeper_operator.Api.Types.{ZookeeperCluster}
use zookeeper_operator.Api.Ports.{zookeeper_ports}
use zookeeper_operator.Api.Spec.{
  config_map_name, get_client_service_name, get_admin_server_service_name,
}
use zookeeper_operator.Zk.Names.{headless_domain}

-- a line `key=value`
abbrev pub line : String → String → String
line key value = key & "=" & value & "\n"

-- the loop over AdditionalConfig, in the order of the list
pub additional_lines : Dict → String
additional_lines [] = ""
additional_lines ((key, value) ∷ m) = line key value & additional_lines m

pub make_zk_config_string : ZookeeperCluster → String
unfolding additional_lines
make_zk_config_string z =
    let conf = z.spec.conf in
    let ports = zookeeper_ports z.spec.ports in
    additional_lines (entries conf.additional_config)
    & "4lw.commands.whitelist=cons, envi, conf, crst, srvr, stat, mntr, ruok\n"
    & "dataDir=/data\n"
    & "standaloneEnabled=false\n"
    & "reconfigEnabled=true\n"
    & "skipACL=yes\n"
    & "metricsProvider.className=org.apache.zookeeper.metrics.prometheus.PrometheusMetricsProvider\n"
    & line "metricsProvider.httpPort" (itoa ports.metrics)
    & "metricsProvider.exportJvmInfo=true\n"
    & line "initLimit" (itoa conf.init_limit)
    & line "syncLimit" (itoa conf.sync_limit)
    & line "tickTime" (itoa conf.tick_time)
    & line "globalOutstandingLimit" (itoa conf.global_outstanding_limit)
    & line "preAllocSize" (itoa conf.pre_alloc_size)
    & line "snapCount" (itoa conf.snap_count)
    & line "commitLogCount" (itoa conf.commit_log_count)
    & line "snapSizeLimitInKb" (itoa conf.snap_size_limit_in_kb)
    & line "maxCnxns" (itoa conf.max_cnxns)
    & line "maxClientCnxns" (itoa conf.max_client_cnxns)
    & line "minSessionTimeout" (itoa conf.min_session_timeout)
    & line "maxSessionTimeout" (itoa conf.max_session_timeout)
    & line "autopurge.snapRetainCount" (itoa conf.auto_purge_snap_retain_count)
    & line "autopurge.purgeInterval" (itoa conf.auto_purge_purge_interval)
    & line "quorumListenOnAllIPs" (format_bool conf.quorum_listen_on_all_ips)
    & line "admin.serverPort" (itoa ports.admin_server)
    & "dynamicConfigFile=/data/zoo.cfg.dynamic\n"

make_zk_log4j_quiet_config_string : String
make_zk_log4j_quiet_config_string =
    "log4j.rootLogger=ERROR, CONSOLE\n"
    & "log4j.appender.CONSOLE=org.apache.log4j.ConsoleAppender\n"
    & "log4j.appender.CONSOLE.Threshold=ERROR\n"
    & "log4j.appender.CONSOLE.layout=org.apache.log4j.PatternLayout\n"
    & "log4j.appender.CONSOLE.layout.ConversionPattern=%d{ISO8601} [myid:%X{myid}] - %-5p [%t:%C{1}@%L] - %m%n\n"

make_zk_log4j_config_string : String
make_zk_log4j_config_string =
    "zookeeper.root.logger=CONSOLE\n" & "zookeeper.console.threshold=INFO\n"
    & "log4j.rootLogger=${zookeeper.root.logger}\n"
    & "log4j.appender.CONSOLE=org.apache.log4j.ConsoleAppender\n"
    & "log4j.appender.CONSOLE.Threshold=${zookeeper.console.threshold}\n"
    & "log4j.appender.CONSOLE.layout=org.apache.log4j.PatternLayout\n"
    & "log4j.appender.CONSOLE.layout.ConversionPattern=%d{ISO8601} [myid:%X{myid}] - %-5p [%t:%C{1}@%L] - %m%n\n"

unfoldable pub make_zk_env_config_string : ZookeeperCluster → String
make_zk_env_config_string z =
    let ports = zookeeper_ports z.spec.ports in
    "#!/usr/bin/env bash\n\n"
    & line "DOMAIN" (headless_domain z)
    & line "QUORUM_PORT" (itoa ports.quorum)
    & line "LEADER_PORT" (itoa ports.leader)
    & line "CLIENT_HOST" (get_client_service_name z)
    & line "CLIENT_PORT" (itoa ports.client)
    & line "ADMIN_SERVER_HOST" (get_admin_server_service_name z)
    & line "ADMIN_SERVER_PORT" (itoa ports.admin_server)
    & line "CLUSTER_NAME" z.meta.name
    & line "CLUSTER_SIZE" (itoa z.spec.replicas)

-- MakeConfigMap
unfoldable pub make_config_map : ZookeeperCluster → ConfigMap
unfolding make_zk_log4j_config_string make_zk_log4j_quiet_config_string
make_config_map z = record {
  type_meta = record { kind = "ConfigMap"; api_version = "v1" };
  meta = record no_meta {
    name = config_map_name z;
    namespace = z.meta.namespace;
    labels = z.spec.labels;
  };
  contents =
      ("zoo.cfg", make_zk_config_string z)
      ∷ ("log4j.properties", make_zk_log4j_config_string)
      ∷ ("log4j-quiet.properties", make_zk_log4j_quiet_config_string)
      ∷ ("env.sh", make_zk_env_config_string z)
      ∷ [];
  binary_data = none;
}
