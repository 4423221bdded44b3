-- ===== src/Analysis/Catalog/Exploits.antt =====
-- `_THREAT_SIGNATURES` of backend/app/analysis/engine.py: known vulnerabilities, shells, PowerShell and LOLBAS.
use aegisiq.Analysis.Signatures.{Signature, threat}
use aegisiq.Models.Log.{medium, high, critical}
use aegisiq.Prelude.{List, [], ◌∷◌}

abbrev pub exploit_signatures : List Signature
exploit_signatures =
    threat "LOG4SHELL_JNDI" "\\$\\{jndi:(?:ldap|rmi|dns|nis|iiop|corba|nds|http)" "T1190"
      "Exploitation" critical "Log4Shell (CVE-2021-44228 / 45046) JNDI lookup."
    ∷ threat "PROXYSHELL" "(?i)/autodiscover/autodiscover\\.json\\?@[^&\\s]*&Email=autodiscover/"
        "T1190" "Exploitation" critical "Exchange ProxyShell exploit path (CVE-2021-34473)."
    ∷ threat "PROXYLOGON" "(?i)/ecp/[^\\s]*/[^\\s]*\\.js\\?[^\\s]*x-anonresource" "T1190"
        "Exploitation" critical "Exchange ProxyLogon exploit path (CVE-2021-26855)."
    ∷ threat "PRINTNIGHTMARE"
        "(?i)(?:AddPrinterDriverEx|Point\\s+and\\s+Print).*(?:UNIDRV|kernelmode)" "T1068"
        "Privilege Escalation" critical "PrintNightmare (CVE-2021-34527) exploitation attempt."
    ∷ threat "PETITPOTAM" "(?i)EfsRpcOpenFileRaw|EfsRpcEncryptFileSrv" "T1187" "Credential Access"
        critical "PetitPotam NTLM-relay coercion (CVE-2021-36942)."
    ∷ threat "ZEROLOGON" "(?i)NetrServerAuthenticate.*(?:zero|\\\\x00{8,})" "T1210"
        "Lateral Movement" critical "Zerologon (CVE-2020-1472) authentication bypass indicator."
    ∷ threat "HEARTBLEED" "(?i)heartbeat.*(?:overrun|out of bounds)" "T1040" "Credential Access"
        high "Heartbleed (CVE-2014-0160) memory-disclosure indicator."
    ∷ threat "SHELLSHOCK" "\\(\\s*\\)\\s*\\{\\s*:;\\s*\\}\\s*;" "T1190" "Exploitation" critical
        "Shellshock (CVE-2014-6271) bash function-definition exploit."
    ∷ threat "SPRING4SHELL"
        "(?i)class\\.module\\.classLoader\\.resources\\.context\\.parent\\.pipeline" "T1190"
        "Exploitation" critical "Spring4Shell (CVE-2022-22965) exploit indicator."
    ∷ threat "CITRIX_BLEED"
        "(?i)/oauth/idp/\\.well-known/openid-configuration.*(?:host:\\s*[^\\s]{2000,}|A{1000,})"
        "T1190" "Exploitation" critical
        "Citrix Bleed (CVE-2023-4966) session-token disclosure attempt."
    ∷ threat "MOVEIT_TRANSFER" "(?i)/moveitisapi/moveitisapi\\.dll|/api/v1/folders/[0-9]+/files"
        "T1190" "Exploitation" high
        "MOVEit Transfer suspicious path (CVE-2023-34362 was widely exploited)."
    ∷ threat "REVERSE_SHELL_BASH" "(?i)bash\\s+-i\\s*>\\s*&\\s*/dev/tcp/[\\d.]+/\\d+\\s+0>&1"
        "T1059.004" "Command and Control" critical "Bash reverse shell — /dev/tcp redirection."
    ∷ threat "REVERSE_SHELL_PYTHON"
        "(?i)python[23]?\\s+-c\\s+['\\\"]import\\s+socket.*subprocess.*(?:call|Popen)" "T1059.006"
        "Command and Control" critical "Python reverse shell one-liner."
    ∷ threat "REVERSE_SHELL_NC"
        "(?i)\\bnc(?:\\.exe)?\\s+(?:-[el]+|--exec)\\s+(?:/bin/sh|/bin/bash|cmd(?:\\.exe)?)" "T1059"
        "Command and Control" critical "netcat used as a shell backdoor (-e or --exec option)."
    ∷ threat "REVERSE_SHELL_PERL" "(?i)perl\\s+-e\\s+['\\\"]use\\s+Socket.*connect.*exec" "T1059"
        "Command and Control" critical "Perl reverse shell socket + exec."
    ∷ threat "REVERSE_SHELL_POWERSHELL"
        "(?i)powershell.*(?:\\.DownloadString|IEX|Invoke-Expression).*(?:net\\.sockets|tcpclient)"
        "T1059.001" "Command and Control" critical
        "PowerShell reverse-shell — TcpClient + Invoke-Expression."
    ∷ threat "MSF_METERPRETER"
        "(?i)(?:meterpreter|metasploit|msfvenom|windows/x64/shell_reverse_tcp)" "T1105"
        "Command and Control" critical "Metasploit / Meterpreter framework signature."
    ∷ threat "COBALTSTRIKE_BEACON"
        "(?i)(?:cobaltstrike|beacon\\.dll|malleable_c2|cobalt\\s*strike|CS-Team-Server)" "T1071.001"
        "Command and Control" critical "Cobalt Strike beacon indicator."
    ∷ threat "SLIVER_C2" "(?i)(?:sliverc2|BishopFox/sliver)" "T1071.001" "Command and Control"
        critical "Sliver C2 framework signature."
    ∷ threat "PS_ENCODED_COMMAND"
        "(?i)powershell(?:\\.exe)?\\s+[-/](?:e|enc|encoded|encodedcommand)\\s+[A-Za-z0-9+/=]{40,}"
        "T1059.001" "Execution" high
        "PowerShell with -EncodedCommand (base64 payload) — common obfuscation."
    ∷ threat "PS_DOWNLOADSTRING"
        "(?i)(?:Net\\.WebClient|IWR|Invoke-WebRequest).*(?:DownloadString|DownloadFile).*IEX"
        "T1059.001" "Command and Control" critical
        "PowerShell download-and-execute cradle (IEX + DownloadString)."
    ∷ threat "PS_BYPASS_EXECUTION"
        "(?i)-(?:ExecutionPolicy|ep)\\s+(?:Bypass|Unrestricted|RemoteSigned)\\s+-(?:NoProfile|nop)"
        "T1562.001" "Defense Evasion" high
        "PowerShell execution-policy bypass — classic malware invocation."
    ∷ threat "PS_HIDDEN_WINDOW" "(?i)-WindowStyle\\s+Hidden|-w\\s+hidden" "T1564" "Defense Evasion"
        medium "PowerShell run with hidden window — evading user visibility."
    ∷ threat "PS_AMSI_BYPASS"
        "(?i)(?:System\\.Management\\.Automation\\.AmsiUtils|amsiInitFailed|amsiScanBuffer)"
        "T1562.001" "Defense Evasion" critical
        "AMSI bypass technique — disabling Windows Defender scanning."
    ∷ threat "PS_INVOKE_REFLECTION" "(?i)\\[Reflection\\.Assembly\\]::Load\\(" "T1620"
        "Defense Evasion" high "In-memory .NET assembly load via reflection — fileless execution."
    ∷ threat "PS_ADD_PERSISTENCE"
        "(?i)New-ScheduledTask.*-Action.*powershell|schtasks\\s+/create.*powershell" "T1053.005"
        "Persistence" high "Scheduled task creation running PowerShell — persistence."
    ∷ threat "LOLBAS_CERTUTIL"
        "(?i)certutil(?:\\.exe)?\\s+.*(?:-urlcache|-decode|-decodehex|-encode)\\s" "T1105"
        "Command and Control" high "certutil misuse as download/encode tool — LOLBAS."
    ∷ threat "LOLBAS_MSHTA" "(?i)mshta(?:\\.exe)?\\s+(?:https?://|javascript:|vbscript:)"
        "T1218.005" "Defense Evasion" high "mshta executing remote or scripted payload — LOLBAS."
    ∷ threat "LOLBAS_RUNDLL32"
        "(?i)rundll32(?:\\.exe)?\\s+(?:javascript:|https?://|shell32\\.dll,ShellExec_RunDLL)"
        "T1218.011" "Defense Evasion" high "rundll32 executing script or remote content — LOLBAS."
    ∷ threat "LOLBAS_REGSVR32" "(?i)regsvr32(?:\\.exe)?\\s+.*(?:/i:https?://|/s\\s+/n\\s+/u)"
        "T1218.010" "Defense Evasion" high "regsvr32 loading remote scriptlet — Squiblydoo LOLBAS."
    ∷ threat "LOLBAS_WMIC_EXEC" "(?i)wmic(?:\\.exe)?\\s+.*process\\s+call\\s+create" "T1047"
        "Execution" high "WMIC process spawn — remote/local execution channel."
    ∷ threat "LOLBAS_BITSADMIN" "(?i)bitsadmin(?:\\.exe)?\\s+.*(?:/transfer|/create).*https?://"
        "T1197" "Defense Evasion" high "BITS admin download — LOLBAS covert transfer."
    ∷ []
