-- ===== src/Analysis/Catalog/Movement.antt =====
-- `_THREAT_SIGNATURES` of backend/app/analysis/engine.py: lateral movement, evasion, reconnaissance, malware, web shells, SSH and containers.
use aegisiq.Analysis.Signatures.{Signature, threat}
use aegisiq.Models.Log.{low, medium, high, critical}
use aegisiq.Prelude.{List, [], ◌∷◌}

abbrev pub movement_signatures : List Signature
movement_signatures =
    threat "PSEXEC_INDICATOR"
      "(?i)(?:psexec(?:svc)?\\.exe|\\\\\\\\[^\\\\]+\\\\ADMIN\\$\\\\PSEXESVC)" "T1021.002"
      "Lateral Movement" high "PsExec service artifact — remote administration or lateral movement."
    ∷ threat "SMB_ADMIN_SHARE" "(?i)\\\\\\\\[^\\\\]+\\\\(?:ADMIN|C|IPC)\\$" "T1021.002"
        "Lateral Movement" medium "Windows admin share access — potential lateral movement."
    ∷ threat "WINRM_MOVEMENT" "(?i)(?:winrm|Enter-PSSession|Invoke-Command\\s+-ComputerName)"
        "T1021.006" "Lateral Movement" high
        "WinRM / PSRemoting — lateral movement via Windows Remote Management."
    ∷ threat "PASS_THE_HASH" "(?i)(?:sekurlsa::pth|/ntlm:[a-f0-9]{32}\\s+/domain:)" "T1550.002"
        "Lateral Movement" critical "Pass-the-Hash technique invocation."
    ∷ threat "EVENT_LOG_CLEAR"
        "(?i)(?:wevtutil\\s+cl|Clear-EventLog|Remove-EventLog|auditpol\\s+/clear)" "T1070.001"
        "Defense Evasion" critical "Windows event-log clearing — anti-forensics."
    ∷ threat "BASH_HISTORY_CLEAR" "(?i)(?:history\\s+-c|>\\s*~/\\.bash_history|unset\\s+HISTFILE)"
        "T1070.003" "Defense Evasion" high "Bash history tampering — anti-forensics."
    ∷ threat "DEFENDER_DISABLE"
        "(?i)(?:Set-MpPreference\\s+-DisableRealtimeMonitoring\\s+\\$true|sc\\s+stop\\s+windefend|Uninstall-WindowsFeature.*Windows-Defender)"
        "T1562.001" "Defense Evasion" critical "Windows Defender being disabled."
    ∷ threat "FIREWALL_DISABLE"
        "(?i)(?:netsh\\s+advfirewall\\s+set\\s+allprofiles\\s+state\\s+off|Set-NetFirewallProfile\\s+-Enabled\\s+False)"
        "T1562.004" "Defense Evasion" critical "Host firewall disabled."
    ∷ threat "RECON_WHOAMI_ALL" "(?i)whoami\\s+/(?:all|priv|groups)" "T1033" "Discovery" low
        "whoami /all — enumeration of current user privileges."
    ∷ threat "RECON_NET_USER" "(?i)net\\s+(?:user|group|localgroup|accounts)\\s+/domain" "T1087.002"
        "Discovery" medium "AD account enumeration via net commands."
    ∷ threat "RECON_QUSER" "(?i)(?:quser|qwinsta|tasklist\\s+/v)" "T1033" "Discovery" low
        "Session / process enumeration — reconnaissance."
    ∷ threat "BLOODHOUND" "(?i)(?:bloodhound|SharpHound(?:\\.exe)?|-CollectionMethod\\s+All)"
        "T1087" "Discovery" high "BloodHound / SharpHound — AD attack-path enumeration."
    ∷ threat "CRYPTO_MINER_XMR"
        "(?i)(?:xmrig|coinhive|cryptonight|stratum\\+tcp://|monero(?:hash|pool))" "T1496" "Impact"
        critical "Crypto-miner (XMRig / Monero) signature."
    ∷ threat "SUSPICIOUS_ONION" "(?i)[a-z2-7]{16,56}\\.onion(?:/|\\b)" "T1090.003"
        "Command and Control" high "Tor .onion URL in log — likely C2 or exfiltration."
    ∷ threat "BITCOIN_ADDRESS" "\\b(?:bc1[a-z0-9]{25,39}|[13][a-km-zA-HJ-NP-Z0-9]{25,34})\\b"
        "T1657" "Impact" medium "Bitcoin address in log — possibly a ransom demand or wallet."
    ∷ threat "WEBSHELL_PHP"
        "(?i)\\?(?:cmd|c|exec|shell)=(?:system|passthru|shell_exec|exec|proc_open|eval)\\s*\\("
        "T1505.003" "Persistence" critical "PHP web-shell parameter — RCE via eval/system/passthru."
    ∷ threat "WEBSHELL_JSP" "(?i)<%\\s*(?:Runtime|ProcessBuilder|Process|exec)" "T1505.003"
        "Persistence" critical "JSP web-shell — inline Java exec code."
    ∷ threat "WEBSHELL_ASPX"
        "(?i)<%@\\s*Page.*(?:System\\.Diagnostics\\.Process|CreateObject\\(\\s*['\\\"]WScript\\.Shell)"
        "T1505.003" "Persistence" critical "ASPX web-shell — inline .NET exec code."
    ∷ threat "CHINA_CHOPPER" "(?i)eval\\s*\\(\\s*base64_decode\\s*\\(" "T1505.003" "Persistence"
        critical "China Chopper style web-shell (base64+eval)."
    ∷ threat "SSH_KEY_INJECTION"
        "(?i)echo\\s+['\\\"]?ssh-(?:rsa|ed25519|dss|ecdsa)\\s+[A-Za-z0-9+/=]{100,}[\\\"']?\\s*>>\\s*.*authorized_keys"
        "T1098.004" "Persistence" critical "SSH key injection into authorized_keys."
    ∷ threat "SSH_PORT_FORWARD" "(?i)ssh\\s+.*-[RL]\\s+\\d+:[^\\s]+:\\d+" "T1572"
        "Command and Control" medium "SSH port forwarding — tunnel setup."
    ∷ threat "K8S_TOKEN_ACCESS" "/var/run/secrets/kubernetes\\.io/serviceaccount/token" "T1552.007"
        "Credential Access" high
        "Kubernetes service-account token access — cluster credential theft."
    ∷ threat "DOCKER_ESCAPE" "(?i)(?:--privileged|--pid=host|--net=host|/var/run/docker\\.sock)"
        "T1611" "Privilege Escalation" high
        "Container escape indicators — privileged container or host socket."
    ∷ []
