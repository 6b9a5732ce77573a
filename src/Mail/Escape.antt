-- ===== src/Mail/Escape.antt =====
-- `escapeHtml` of apps/web/src/lib/passEmail.ts.
pub mod Laws
use save_the_date.Base.{ℕ, List, [], ◌∷◌, ◌++◌, Text, codes, ◌==◌, if◌then◌else◌}

-- `value.replaceAll(c, text)` for a pattern of one code unit
unfoldable pub replace_all : ℕ → Text → Text → Text
replace_all c text [] = []
replace_all c text (d ∷ s) = (if d == c then text else d ∷ []) ++ replace_all c text s

-- `escapeHtml(value)`
pub escape_html : Text → Text
escape_html value = replace_all 39 (codes "&#039;") (
    replace_all b'"' (codes "&quot;") (
      replace_all b'>' (codes "&gt;")
        (replace_all b'<' (codes "&lt;") (replace_all b'&' (codes "&amp;") value))))
