-- ===== src/Policy/Features.antt =====
-- The feature ids of panel/hosting_features.py (`FEATURES`) and the default set of an account in
-- panel/hosting_policy.py (`DEFAULT_ACCOUNT_FEATURES`).
use nexvary_panel.Base.{String, List, [], ◌∷◌}

-- the keys of `FEATURES`
unfoldable pub features : List String
features =
    "files.file_manager" ∷ "files.images" ∷ "files.directory_privacy" ∷ "files.disk_usage"
    ∷ "files.web_disk" ∷ "files.ftp_accounts" ∷ "files.backups" ∷ "files.backup_wizard"
    ∷ "files.git" ∷ "domains.domains" ∷ "domains.redirects" ∷ "domains.zone_editor"
    ∷ "domains.dynamic_dns" ∷ "email.accounts" ∷ "email.forwarders" ∷ "email.routing"
    ∷ "email.autoresponders" ∷ "email.default_address" ∷ "email.mailing_lists"
    ∷ "email.delivery_trace" ∷ "email.global_filters" ∷ "email.filters" ∷ "email.deliverability"
    ∷ "email.address_importer" ∷ "email.spam_filters" ∷ "email.calendars_contacts"
    ∷ "email.encryption" ∷ "databases.mariadb" ∷ "databases.wizard" ∷ "databases.remote_access"
    ∷ "databases.postgresql" ∷ "databases.web_admin" ∷ "metrics.visitors" ∷ "metrics.errors"
    ∷ "metrics.bandwidth" ∷ "metrics.raw_access" ∷ "metrics.analytics" ∷ "metrics.resource_usage"
    ∷ "security.ssh" ∷ "security.ip_blocker" ∷ "security.ssl_tls" ∷ "security.api_tokens"
    ∷ "security.hotlink" ∷ "security.leech" ∷ "security.waf" ∷ "security.two_factor"
    ∷ "security.ssl_status" ∷ "security.malware_scan" ∷ "software.wordpress"
    ∷ "software.php_manager" ∷ "software.php_ini" ∷ "software.node" ∷ "software.python"
    ∷ "software.ruby" ∷ "software.optimize" ∷ "advanced.cron" ∷ "advanced.dns_trace"
    ∷ "advanced.indexes" ∷ "advanced.error_pages" ∷ "advanced.mime_types" ∷ "advanced.handlers"
    ∷ "advanced.virus_scan" ∷ "preferences.password" ∷ "preferences.language" ∷ "preferences.users"
    ∷ "preferences.contact" ∷ "whm.basic_setup" ∷ "whm.quotas" ∷ "whm.server_profile"
    ∷ "whm.server_time" ∷ "whm.stats_config" ∷ "whm.tweak_settings" ∷ "whm.system_cron"
    ∷ "whm.updates" ∷ "whm.networking" ∷ "whm.hostname" ∷ "whm.security_advisor" ∷ "whm.firewall"
    ∷ "whm.host_access" ∷ "whm.resellers" ∷ "whm.service_config" ∷ "whm.backup_config"
    ∷ "whm.backup_restore" ∷ "whm.clusters" ∷ "whm.system_health" ∷ "whm.restart_services"
    ∷ "whm.accounts" ∷ "whm.multi_account" ∷ "whm.transfers" ∷ "whm.packages"
    ∷ "whm.feature_manager" ∷ "whm.dns_functions" ∷ "whm.dns_cluster" ∷ "whm.sql_services"
    ∷ "whm.ip_functions" ∷ "whm.software" ∷ "whm.mail_server" ∷ "whm.mail_queue" ∷ "whm.ssl"
    ∷ "whm.service_status" ∷ "whm.web_server" ∷ "whm.php_config" ∷ "whm.mail_config"
    ∷ "whm.nameserver" ∷ "whm.locales" ∷ "whm.plugins" ∷ "whm.api_tokens" ∷ "whm.logs"
    ∷ "whm.processes" ∷ "whm.disk_usage" ∷ "whm.reboot" ∷ "whm.fleet" ∷ []

-- `DEFAULT_ACCOUNT_FEATURES`
unfoldable pub default_account_features : List String
default_account_features =
    "files.file_manager" ∷ "files.directory_privacy" ∷ "files.disk_usage" ∷ "files.ftp_accounts"
    ∷ "files.backups" ∷ "files.backup_wizard" ∷ "files.git" ∷ "domains.domains"
    ∷ "domains.redirects" ∷ "domains.zone_editor" ∷ "domains.dynamic_dns" ∷ "email.accounts"
    ∷ "email.forwarders" ∷ "email.deliverability" ∷ "email.delivery_trace" ∷ "databases.mariadb"
    ∷ "databases.wizard" ∷ "metrics.visitors" ∷ "metrics.errors" ∷ "metrics.bandwidth"
    ∷ "metrics.raw_access" ∷ "metrics.resource_usage" ∷ "security.hotlink" ∷ "security.ssl_tls"
    ∷ "security.two_factor" ∷ "security.ssl_status" ∷ "software.wordpress" ∷ "software.php_manager"
    ∷ "software.php_ini" ∷ "software.node" ∷ "software.python" ∷ "software.optimize"
    ∷ "advanced.cron" ∷ "advanced.dns_trace" ∷ "advanced.indexes" ∷ "advanced.error_pages"
    ∷ "advanced.mime_types" ∷ "preferences.password" ∷ "preferences.language" ∷ "preferences.users"
    ∷ []
