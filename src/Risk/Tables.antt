-- ===== src/Risk/Tables.antt =====
-- The patterns of each class, in the order in which they are tried.
use witseal.Prelude.{List, [], ◌∷◌}
use witseal.Prelude.Text.{codes}
use witseal.Risk.{PatternRow, row}

abbrev pub c4_patterns : List PatternRow
c4_patterns =
    row (codes "\\brm\\s+(-[rRf]+\\s+)+(\\/|\\$HOME|~)") (codes "rm -rf on root or home")
    ∷ row (codes "\\b(dd|mkfs|fdisk|parted|wipefs)\\b") (codes "disk-level destructive utility")
    ∷ row (codes "\\bsudo\\b") (codes "privilege escalation via sudo")
    ∷ row (codes ":\\(\\)\\s*\\{") (codes "shell fork bomb pattern detected")
    ∷ row (codes "\\bshutdown\\b|\\breboot\\b|\\bhalt\\b") (codes "system shutdown command")
    ∷ row (codes "\\biptables\\b|\\bnft\\b") (codes "firewall modification")
    ∷ row (codes "\\b(curl|wget|fetch)\\b.*\\|\\s*(bash|sh|zsh|dash)\\b")
        (codes "shell-bypass: network download piped to a shell (remote code execution)")
    ∷ row (codes "\\bbase64\\b.*\\|\\s*(bash|sh|zsh|dash)\\b")
        (codes "shell-bypass: base64 payload piped to a shell (opaque execution)")
    ∷ []

abbrev pub c3_patterns : List PatternRow
c3_patterns =
    row (codes "\\b(curl|wget|nc|ncat|socat|httpie)\\b") (codes "network egress utility")
    ∷ row (codes "\\b(npm|pip|gem|cargo|go)\\s+install\\b") (codes "package installation")
    ∷ row (codes "\\bgit\\s+push\\b") (codes "remote repository push")
    ∷ row (codes "\\bdocker\\s+(run|exec|push)\\b") (codes "container execution or registry push")
    ∷ row (codes "\\bssh\\b") (codes "remote shell access")
    ∷ row (codes "\\brm\\s+-[rRf]") (codes "recursive removal")
    ∷ row (codes "\\b(bash|sh|zsh|dash|ksh)\\s+-[A-Za-z]*c\\b")
        (codes "shell-bypass: nested shell -c invocation, opaque to classification")
    ∷ row (codes "\\beval\\b") (codes "shell-bypass: eval of a dynamic string")
    ∷ row (codes "\\b(python3?|ruby|perl|node|deno|php)\\s+-(c|e)\\b")
        (codes "shell-bypass: inline interpreter code (-c/-e)")
    ∷ row (codes "\\bnode\\s+--eval\\b") (codes "shell-bypass: node --eval inline code")
    ∷ row (codes "\\|\\s*(bash|sh|zsh|dash)\\b") (codes "shell-bypass: command piped to a shell")
    ∷ []

abbrev pub c2_patterns : List PatternRow
c2_patterns =
    row (codes "\\bgit\\s+(commit|reset|rebase|merge)\\b") (codes "git history modification")
    ∷ row (codes "\\b(npm|pnpm|yarn)\\s+(test|build|run)\\b") (codes "build or test execution")
    ∷ row (codes "\\bmake\\b") (codes "make execution")
    ∷ row (codes "\\bmv\\b|\\bcp\\b") (codes "file move or copy")
    ∷ row (codes "\\b(chmod|chown)\\b") (codes "permissions modification")
    ∷ []

abbrev pub c0_patterns : List PatternRow
c0_patterns =
    row
      (codes
        "^\\s*(echo|printf|true|false|cat|head|tail|wc|sort|uniq|grep|find|ls|pwd|stat|file|du|df)\\b")
      (codes "informational command")
    ∷ row (codes "\\b(node|python|python3|ruby|perl)\\s+--?(version|help)\\b")
        (codes "version/help check")
    ∷ []
