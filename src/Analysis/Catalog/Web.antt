-- ===== src/Analysis/Catalog/Web.antt =====
-- `_THREAT_SIGNATURES` of backend/app/analysis/engine.py: web applications.
use aegisiq.Analysis.Signatures.{Signature, threat}
use aegisiq.Models.Log.{medium, high, critical}
use aegisiq.Prelude.{List, [], ◌∷◌}

abbrev pub web_signatures : List Signature
web_signatures =
    threat "SQLI_TIME_BLIND"
      "(?i)(?:sleep\\s*\\(\\s*\\d+\\s*\\)|benchmark\\s*\\(\\s*\\d+|waitfor\\s+delay|pg_sleep)"
      "T1190" "Exploitation" high
      "Time-based blind SQL injection payload (SLEEP/BENCHMARK/WAITFOR)."
    ∷ threat "SQLI_BOOLEAN"
        "(?i)['\\\"]\\s*(?:or|and)\\s+['\\\"]?\\d+['\\\"]?\\s*(?:=|<|>|<>)\\s*['\\\"]?\\d" "T1190"
        "Exploitation" high "Boolean-based SQL injection ('1=1', 'a'='a', etc.)."
    ∷ threat "SQLI_STACKED"
        "(?i);\\s*(?:drop|truncate|delete|insert|update)\\s+(?:table|from|into)\\b" "T1190"
        "Exploitation" critical "Stacked SQL query injecting DDL/DML operations."
    ∷ threat "XXE_ATTACK"
        "(?i)<!ENTITY\\s+\\w+\\s+SYSTEM\\s+['\\\"](?:file|http|ftp|expect|php|jar):" "T1190"
        "Exploitation" high "XML External Entity (XXE) payload attempting to read files or SSRF."
    ∷ threat "SSRF_LOCAL"
        "(?i)(?:127\\.0\\.0\\.1|localhost|0\\.0\\.0\\.0|169\\.254\\.169\\.254|metadata\\.google|metadata\\.azure)"
        "T1190" "Exploitation" medium
        "Server-Side Request Forgery target — cloud metadata or localhost pivot."
    ∷ threat "SSTI_JINJA_2"
        "\\{\\{\\s*(?:config|request|application|url_for|self|__class__|__globals__|__builtins__|import_module)"
        "T1190" "Exploitation" high
        "Server-Side Template Injection targeting Jinja/Flask/Twig internals."
    ∷ threat "NOSQL_INJECTION" "(?i)\\$(?:where|ne|gt|lt|regex|elemMatch|nin)\\s*[:=]" "T1190"
        "Exploitation" high "NoSQL (MongoDB) injection operator abuse."
    ∷ threat "LDAP_INJECTION"
        "(?i)\\(\\s*(?:\\|\\s*)?\\(?\\s*(?:cn|uid|sAMAccountName|memberOf)\\s*=\\s*\\*[^)]*\\)"
        "T1190" "Exploitation" high "LDAP injection payload — wildcard on identity attributes."
    ∷ threat "XPATH_INJECTION"
        "(?i)['\\\"]\\s*or\\s+['\\\"]?\\d+['\\\"]?\\s*=\\s*['\\\"]?\\d+['\\\"]?\\s+or\\s+['\\\"]?\\w+['\\\"]?\\s*="
        "T1190" "Exploitation" medium "XPath injection — chained OR conditions."
    ∷ threat "PATH_TRAVERSAL_ENC" "(?i)(?:%2e%2e[\\\\/]|%252e%252e|\\.\\.%2f|\\.\\.%5c)" "T1190"
        "Exploitation" high "URL-encoded path traversal (%2e%2e/, double-encoded)."
    ∷ threat "PHP_LFI" "(?i)php://(?:filter|input|expect|memory)" "T1190" "Exploitation" critical
        "PHP local file inclusion via wrapper (php://filter, php://input)."
    ∷ threat "RFI_EXTERNAL" "(?i)(?:include|require)(?:_once)?\\s*\\(\\s*['\\\"]https?://" "T1190"
        "Exploitation" critical "Remote file inclusion — including code from a remote URL."
    ∷ threat "OGNL_INJECTION"
        "(?i)\\$\\{\\s*[@#]?(?:ognl\\.|@java\\.lang|Runtime\\.getRuntime|ProcessBuilder)" "T1190"
        "Exploitation" critical "OGNL expression injection (Struts, Confluence CVE-2022-26134)."
    ∷ threat "SPEL_INJECTION"
        "(?i)\\$\\{T\\(java\\.lang\\.Runtime\\)|T\\(\\s*java\\.lang\\.ProcessBuilder\\s*\\)" "T1190"
        "Exploitation" critical
        "Spring Expression Language injection (Spring4Shell CVE-2022-22965 style)."
    ∷ threat "PROTOTYPE_POLLUTION" "(?i)(?:__proto__|constructor\\.prototype)\\s*[\\[.]" "T1190"
        "Exploitation" high "JavaScript prototype pollution attempt."
    ∷ threat "HTTP_REQUEST_SMUGGLING"
        "(?i)transfer-encoding\\s*:\\s*chunked.*content-length\\s*:\\s*\\d+" "T1190" "Exploitation"
        high "HTTP request smuggling — conflicting Transfer-Encoding and Content-Length."
    ∷ threat "GRAPHQL_INTROSPECTION" "(?i)__schema\\s*\\{\\s*(?:queryType|types)" "T1595"
        "Reconnaissance" medium "GraphQL introspection query — enumerating the schema."
    ∷ threat "JWT_NONE_ALG" "(?i)\"alg\"\\s*:\\s*\"(?:none|None|NONE)\"" "T1550.001"
        "Defense Evasion" critical "JWT with 'none' algorithm — signature-bypass attempt."
    ∷ []
