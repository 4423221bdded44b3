-- ===== src/Analysis/Catalog/Network.antt =====
-- `_THREAT_SIGNATURES` of backend/app/analysis/engine.py: network patterns, sign-ins and scans.
use aegisiq.Analysis.Signatures.{Signature, threat}
use aegisiq.Models.Log.{low, medium, high, critical}
use aegisiq.Prelude.{List, [], ◌∷◌}

abbrev pub network_signatures : List Signature
network_signatures =
    threat "SUSPICIOUS_PORT" ":(?:4444|5555|6666|7777|8888|9999|31337|1337|1234|54321)\\b" "T1571"
      "Command and Control" medium "Common malware/backdoor port number in connection."
    ∷ threat "MASSCAN_UA" "(?i)User-Agent[:\\s]+(?:masscan|zgrab|zmap)" "T1595.001" "Reconnaissance"
        medium "Mass-scanner User-Agent (masscan/zgrab/zmap)."
    ∷ threat "SSHD_INVALID_USER"
        "(?i)(?:invalid user|user unknown|input_userauth_request:\\s*invalid user)" "T1110"
        "Credential Access" high
        "SSH login attempt for an unknown / invalid username — enumeration."
    ∷ threat "SSHD_ROOT_LOGIN_ATTEMPT"
        "(?i)authentication failure;.*user=root|Failed password for root from" "T1110"
        "Credential Access" high "Direct SSH login attempt as root — brute-force target."
    ∷ threat "SSHD_AUTH_FAILURE_PAM" "pam_unix\\([^)]*\\):\\s*authentication failure" "T1110"
        "Credential Access" medium
        "PAM authentication failure — repeated hits indicate brute force."
    ∷ threat "SSHD_CHECK_PASS_UNKNOWN" "(?i)check pass;\\s*user unknown" "T1087.001" "Discovery"
        medium "SSH user-enumeration attempt (check pass / user unknown)."
    ∷ threat "SSHD_MAX_AUTH_TRIES"
        "(?i)maximum authentication attempts exceeded|Too many authentication failures" "T1110"
        "Credential Access" high "SSH client exceeded max auth tries — active brute-force campaign."
    ∷ threat "SSHD_PREAUTH_DROP"
        "(?i)disconnected from .+ \\[preauth\\]|Received disconnect from .+ \\[preauth\\]" "T1595"
        "Reconnaissance" low "SSH pre-authentication disconnect — bulk hits indicate scanning."
    ∷ threat "LINUX_SU_ROOT" "(?i)(?:su(?:do)?\\[[0-9]+\\]|session opened for user root)"
        "T1548.003" "Privilege Escalation" low
        "Root session opened via su/sudo — routine, but a burst is suspicious."
    ∷ threat "LINUX_UMASK_WORLD_WRITABLE"
        "(?i)chmod\\s+(?:777|666|a\\+w|o\\+w)\\s+/(?:etc|usr|bin|sbin|root)" "T1222.002"
        "Defense Evasion" high "chmod making critical directory world-writable."
    ∷ threat "LINUX_MODPROBE_BLACKLIST" "(?i)modprobe\\s+(?:-r\\s+)?(?:audit|apparmor|selinux)"
        "T1562.001" "Defense Evasion" high
        "Unloading security kernel modules (audit / apparmor / selinux)."
    ∷ threat "LINUX_SYSLOG_STOP"
        "(?i)systemctl\\s+(?:stop|disable|mask)\\s+(?:rsyslog|syslog|auditd|systemd-journald)"
        "T1562.008" "Defense Evasion" critical "Stopping the logging daemon — anti-forensics."
    ∷ threat "LINUX_LD_PRELOAD" "(?i)LD_PRELOAD\\s*=\\s*/[^\\s]+\\.so" "T1574.006" "Persistence"
        high "LD_PRELOAD hijack — library injection persistence."
    ∷ threat "LINUX_HISTFILE_UNSET"
        "(?i)(?:unset\\s+HISTFILE|HISTFILE\\s*=\\s*/dev/null|HISTSIZE\\s*=\\s*0)" "T1070.003"
        "Defense Evasion" high "Shell history disabled — evasion."
    ∷ threat "LINUX_CRON_HOURLY_WRITE"
        "/etc/cron\\.(?:d|hourly|daily|weekly|monthly)/[^/\\s]+\\s*(?:written|created|installed)"
        "T1053.003" "Persistence" medium "New file dropped in /etc/cron.* — persistence."
    ∷ threat "LINUX_BASHRC_EDIT" "(?i)(?:>>|echo)\\s+.*/\\.(?:bashrc|profile|zshrc|bash_profile)"
        "T1546.004" "Persistence" medium
        "Shell rc file edited via redirect — user-level persistence."
    ∷ threat "LINUX_TMP_BINARY_EXEC"
        "(?:^|\\s)/(?:tmp|dev/shm|var/tmp)/[^\\s]{1,60}\\s+(?:executing|running)" "T1036.005"
        "Defense Evasion" high "Executable running from /tmp or /dev/shm — malware staging area."
    ∷ threat "PORT_SCAN_TCP_FLAGS" "(?i)tcp\\s+flag(?:s)?\\s*=?\\s*(?:S|SYN)\\b.*port\\s+\\d+"
        "T1046" "Reconnaissance" low "Bare-SYN packets — TCP port scan probe."
    ∷ threat "SLOW_LORIS" "(?i)partial\\s+http\\s+request|slow\\s+read|X-a:\\s*b\\r\\n" "T1499.001"
        "Impact" medium "Slowloris / slow-HTTP DoS pattern."
    ∷ []
