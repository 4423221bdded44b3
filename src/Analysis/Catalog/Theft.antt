-- ===== src/Analysis/Catalog/Theft.antt =====
-- `_THREAT_SIGNATURES` of backend/app/analysis/engine.py: credentials, ransomware, exfiltration and persistence.
use aegisiq.Analysis.Signatures.{Signature, threat}
use aegisiq.Models.Log.{medium, high, critical}
use aegisiq.Prelude.{List, [], ◌∷◌}

abbrev pub theft_signatures : List Signature
theft_signatures =
    threat "MIMIKATZ_CMD"
      "(?i)(?:mimikatz|sekurlsa::(?:logonpasswords|pth)|lsadump::|kerberos::(?:tgt|golden|purge))"
      "T1003.001" "Credential Access" critical "Mimikatz command — LSASS credential dumping."
    ∷ threat "LSASS_DUMP" "(?i)(?:procdump.*lsass|comsvcs\\.dll,\\s*MiniDump|out-minidump)"
        "T1003.001" "Credential Access" critical "LSASS memory dump — credential extraction."
    ∷ threat "SAM_HIVE_ACCESS"
        "(?i)(?:reg\\s+save\\s+HKLM\\\\SAM|copy\\s+.*SYSTEM32\\\\config\\\\SAM)" "T1003.002"
        "Credential Access" critical "SAM registry hive extraction — offline credential attack."
    ∷ threat "KERBEROASTING" "(?i)(?:GetUserSPNs\\.py|Rubeus\\.exe.*kerberoast|Invoke-Kerberoast)"
        "T1558.003" "Credential Access" critical
        "Kerberoasting tooling — extracting SPN service tickets."
    ∷ threat "ASREPROAST" "(?i)(?:GetNPUsers\\.py|Rubeus\\.exe.*asreproast)" "T1558.004"
        "Credential Access" critical "AS-REP roasting — accounts without pre-auth."
    ∷ threat "DCSYNC" "(?i)lsadump::dcsync|dsreplicagetnc" "T1003.006" "Credential Access" critical
        "DCSync — replicating credentials from a domain controller."
    ∷ threat "GOLDEN_TICKET" "(?i)kerberos::(?:golden|silver)\\s+/user:" "T1558.001"
        "Credential Access" critical "Golden / Silver ticket forgery."
    ∷ threat "VSS_DELETE_SHADOWS" "(?i)vssadmin(?:\\.exe)?\\s+delete\\s+shadows" "T1490" "Impact"
        critical "Volume Shadow Copy deletion — pre-ransomware step."
    ∷ threat "WBADMIN_DELETE_BACKUP"
        "(?i)wbadmin(?:\\.exe)?\\s+delete\\s+(?:catalog|systemstatebackup|backup)" "T1490" "Impact"
        critical "Windows backup catalog deletion — pre-ransomware step."
    ∷ threat "BCDEDIT_RECOVERY_OFF"
        "(?i)bcdedit(?:\\.exe)?\\s+.*(?:recoveryenabled\\s+no|bootstatuspolicy\\s+ignoreallfailures)"
        "T1490" "Impact" critical "Boot configuration disabling recovery — ransomware signature."
    ∷ threat "WMIC_SHADOWCOPY_DELETE" "(?i)wmic(?:\\.exe)?\\s+shadowcopy\\s+delete" "T1490" "Impact"
        critical "WMIC deleting shadow copies — ransomware."
    ∷ threat "RANSOM_NOTE"
        "(?i)(?:_readme\\.txt|HOW_TO_DECRYPT|DECRYPT_INSTRUCTIONS|YOUR_FILES_ARE_ENCRYPTED)" "T1486"
        "Impact" critical "Ransom note filename detected — post-infection indicator."
    ∷ threat "DNS_TUNNEL" "(?i)\\b[a-f0-9]{40,}\\.(?:dns2tcp|dnscat|iodine)\\." "T1071.004"
        "Command and Control" high "DNS tunneling toolchain — data exfiltration."
    ∷ threat "BASE64_LARGE_BLOB" "(?<![A-Za-z0-9+/=])[A-Za-z0-9+/]{200,}={0,2}(?![A-Za-z0-9+/=])"
        "T1132.001" "Command and Control" medium
        "Large inline base64 blob — likely obfuscated payload or exfil."
    ∷ threat "CLOUD_METADATA_ACCESS" "169\\.254\\.169\\.254/(?:latest|computeMetadata|metadata)"
        "T1552.005" "Credential Access" critical
        "Cloud instance-metadata endpoint access — IAM credential theft."
    ∷ threat "AWS_KEY_LEAK" "\\b(?:AKIA|ASIA|AGPA|AIDA)[A-Z0-9]{16}\\b" "T1552.001"
        "Credential Access" critical "AWS access key ID pattern in log — likely credential leak."
    ∷ threat "GCP_KEY_LEAK" "\"type\"\\s*:\\s*\"service_account\".*\"private_key\"" "T1552.001"
        "Credential Access" critical "GCP service-account JSON key in log — credential leak."
    ∷ threat "PRIVATE_KEY_BLOCK" "-----BEGIN\\s+(?:RSA|DSA|EC|OPENSSH|PGP)\\s+PRIVATE\\s+KEY-----"
        "T1552.004" "Credential Access" critical "Private-key PEM block in log — credential leak."
    ∷ threat "CRONTAB_MODIFY"
        "(?i)(?:crontab\\s+-[el]\\s+|/etc/cron\\.(?:d|hourly|daily|weekly|monthly)/)" "T1053.003"
        "Persistence" medium "cron job modification — potential persistence."
    ∷ threat "SSH_AUTHORIZED_KEYS" "(?i)\\.ssh/authorized_keys" "T1098.004" "Persistence" high
        "Access to ~/.ssh/authorized_keys — potential backdoor key install."
    ∷ threat "SUDOERS_MODIFY" "(?i)/etc/sudoers(?:\\.d)?/" "T1548.003" "Privilege Escalation" high
        "Sudoers file access/modification — privilege change."
    ∷ threat "SYSTEMD_SERVICE_ADD"
        "(?i)systemctl\\s+enable\\s+.*\\.service|/etc/systemd/system/.*\\.service" "T1543.002"
        "Persistence" medium "systemd unit installation — persistence."
    ∷ threat "REG_RUN_KEY" "(?i)HKLM\\\\Software\\\\Microsoft\\\\Windows\\\\CurrentVersion\\\\Run"
        "T1547.001" "Persistence" high "Registry Run key modification — Windows persistence."
    ∷ threat "REG_SCHEDULED_TASK"
        "(?i)HKLM\\\\Software\\\\Microsoft\\\\Windows\\\\NT\\\\CurrentVersion\\\\Schedule\\\\TaskCache"
        "T1053.005" "Persistence" medium
        "Scheduled Task registry cache access — persistence indicator."
    ∷ []
