-- ===== src/Compass/Config.antt =====
-- The options that deploy/client.py registers with oslo.config: their names, kinds and defaults.
use compass4nfv.Base.{ℕ, Bool, true, [], Text, codes}

pub record Config : Type 0 where
  pub expansion : Text
  pub compass_server : Text
  pub compass_user_email : Text
  pub compass_user_password : Text
  pub switch_ips : Text
  pub switch_credential : Text
  pub switch_max_retries : ℕ
  pub switch_retry_interval : ℕ
  pub poll_switches : Bool
  pub machine_file : Text
  pub subnets : Text
  pub adapter_name : Text
  pub adapter_os_pattern : Text
  pub adapter_target_system_pattern : Text
  pub adapter_flavor_pattern : Text
  pub cluster_name : Text
  pub language : Text
  pub timezone : Text
  pub http_proxy : Text
  pub https_proxy : Text
  pub no_proxy : Text
  pub ntp_server : Text
  pub dns_servers : Text
  pub domain : Text
  pub search_path : Text
  pub local_repo_url : Text
  pub default_gateway : Text
  pub server_credential : Text
  pub os_config_json_file : Text
  pub service_credentials : Text
  pub console_credentials : Text
  pub hostnames : Text
  pub host_networks : Text
  pub partitions : Text
  pub network_mapping : Text
  pub package_config_json_file : Text
  pub host_roles : Text
  pub default_roles : Text
  pub action_timeout : ℕ
  pub install_os_timeout : ℕ
  pub ansible_print_wait : ℕ
  pub deployment_timeout : ℕ
  pub progress_update_check_interval : ℕ
  pub dashboard_url : Text
  pub dashboard_link_pattern : Text
  pub cluster_vip : Text
  pub enable_secgroup : Text
  pub enable_vpnaas : Text
  pub enable_fwaas : Text
  pub network_cfg : Text
  pub neutron_cfg : Text
  pub cluster_pub_vip : Text
  pub cluster_prv_vip : Text
  pub repo_name : Text
  pub deploy_type : Text
  pub deploy_flag : Text
  pub rsa_file : Text
  pub odl_l3_agent : Text
  pub moon_cfg : Text
  pub onos_sfc : Text
  pub plugins : Text
  pub cluster_param : Text
  pub offline_deployment : Text
  pub offline_repo_port : Text

-- The options of a command line that gives none.
abbrev pub defaults : Config
defaults = record {
  expansion = codes "false";
  compass_server = codes "http://127.0.0.1/api";
  compass_user_email = codes "admin@huawei.com";
  compass_user_password = codes "admin";
  switch_ips = [];
  switch_credential = codes "version=2c,community=public";
  switch_max_retries = 10;
  switch_retry_interval = 10;
  poll_switches = true;
  machine_file = [];
  subnets = [];
  adapter_name = [];
  adapter_os_pattern = codes "^(?i)centos.*";
  adapter_target_system_pattern = codes "^openstack$";
  adapter_flavor_pattern = codes "allinone";
  cluster_name = codes "cluster1";
  language = codes "EN";
  timezone = codes "GMT";
  http_proxy = [];
  https_proxy = [];
  no_proxy = [];
  ntp_server = [];
  dns_servers = [];
  domain = [];
  search_path = [];
  local_repo_url = [];
  default_gateway = [];
  server_credential = codes "root=root";
  os_config_json_file = [];
  service_credentials = [];
  console_credentials = [];
  hostnames = [];
  host_networks = [];
  partitions = codes "tmp:percentage=10%,var:percentage=30%,home:percentage=30%";
  network_mapping = [];
  package_config_json_file = [];
  host_roles = [];
  default_roles = [];
  action_timeout = 60;
  install_os_timeout = 60;
  ansible_print_wait = 5;
  deployment_timeout = 60;
  progress_update_check_interval = 60;
  dashboard_url = [];
  dashboard_link_pattern = codes "(?m)(http://\\d+\\.\\d+\\.\\d+\\.\\d+:5000/v2\\.0)";
  cluster_vip = [];
  enable_secgroup = codes "true";
  enable_vpnaas = codes "true";
  enable_fwaas = codes "true";
  network_cfg = [];
  neutron_cfg = [];
  cluster_pub_vip = [];
  cluster_prv_vip = [];
  repo_name = [];
  deploy_type = codes "virtual";
  deploy_flag = codes "deploy";
  rsa_file = [];
  odl_l3_agent = codes "Disable";
  moon_cfg =
      codes "master:flag=Disable,slave:flag=Disable,slave:name=slave1,slave:master_ip=master_ip";
  onos_sfc = codes "Disable";
  plugins = codes "{}";
  cluster_param = codes "{}";
  offline_deployment = codes "Disable";
  offline_repo_port = codes "5151";
}
