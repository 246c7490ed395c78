-- ===== src/Conf.antt =====
-- The paths under which etcd holds the configuration (src/conf.h).
use hvbench.Base.{◌++◌, Text, codes}

abbrev pub c_etcd_pbase : Text
c_etcd_pbase = codes "/hvbench"

abbrev pub c_etcd_phvbench : Text
c_etcd_phvbench = c_etcd_pbase ++ codes "/instances"

abbrev pub c_etcd_pglobals : Text
c_etcd_pglobals = c_etcd_pbase ++ codes "/globals"

abbrev pub c_etcd_ptenants_conf : Text
c_etcd_ptenants_conf = c_etcd_pbase ++ codes "/tenants"

abbrev pub c_etcd_pnodes_conf : Text
c_etcd_pnodes_conf = c_etcd_pbase ++ codes "/nodes/conf"

abbrev pub conf_api_version : Text
conf_api_version = codes "0.1"
