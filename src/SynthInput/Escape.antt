-- ===== src/SynthInput/Escape.antt =====
-- `escapeXmlText` and `escapeAttribute`.
use priority_kb.Base.{Text, lit, ℕ, ◌==◌, [], ◌∷◌, ◌++◌, if◌then◌else◌}

-- `s.replace(/c/g, by)`.
unfoldable pub replace_all : ℕ → Text → Text → Text
replace_all c by [] = []
replace_all c by (d ∷ s) = (if d == c then by else d ∷ []) ++ replace_all c by s

unfoldable pub escape_xml_text : Text → Text
escape_xml_text s =
    replace_all b'>' (lit "&gt;") (replace_all b'<' (lit "&lt;") (replace_all b'&' (lit "&amp;") s))

unfoldable pub escape_attribute : Text → Text
escape_attribute s =
    replace_all b'\'' (lit "&apos;") (replace_all b'"' (lit "&quot;") (escape_xml_text s))
