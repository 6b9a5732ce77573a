-- ===== src/Mail/Message.antt =====
-- The texts of a pass email: `formatTicketNumber` to `buildHtmlMessage` of
-- apps/web/src/lib/passEmail.ts.
use save_the_date.Base.{
  ℕ, zero, suc, ◌+◌, ◌-◌, ◌/◌, ◌%◌, Option, none, some, List, [], ◌∷◌, ◌++◌, map, Text, codes, trim,
  or_text, length, ltb, if◌then◌else◌,
}
use save_the_date.HallPasses.Model.{HallPass}
use save_the_date.Mail.Escape.{replace_all, escape_html}

-- Decimal digits in front of those that were written; the fuel is above the number.
digits_from : ℕ → ℕ → Text → Text
digits_from zero n written = written
digits_from (suc fuel) n written =
    let rest = digits_from fuel (n / 10) ((48 + n % 10) ∷ written) in
    if ltb n 10 then (48 + n) ∷ written else rest

-- `n.toString()`
pub to_string : ℕ → Text
unfolding digits_from
to_string n = digits_from (n + 1) n []

zeros : ℕ → Text → Text
zeros zero s = s
zeros (suc n) s = b'0' ∷ zeros n s

-- `s.padStart(width, "0")`
pub pad_start : ℕ → Text → Text
unfolding zeros
pad_start width s = zeros (width - length s) s

-- `formatTicketNumber(ticketNumber)`
unfoldable pub format_ticket_number : ℕ → Text
unfolding to_string pad_start
format_ticket_number n = codes "Ticket #" ++ pad_start 3 (to_string n)

-- `formatGuestName(pass)`
unfoldable pub format_guest_name : HallPass → Text
format_guest_name p = elim p.guest_name [
  | none ↦ codes "Guest"
  | some name ↦ or_text (trim name) (codes "Guest")
]

-- `parts.join(separator)`
unfoldable pub join : Text → List Text → Text
join separator [] = []
join separator (s ∷ []) = s
join separator (s ∷ (t ∷ ts)) = s ++ (separator ++ join separator (t ∷ ts))

-- `buildGuestNameLines(passes)`
pub build_guest_name_lines : List HallPass → Text
build_guest_name_lines passes =
    codes "This ticket pass is generated for "
    ++ (join (codes ", ") (map format_guest_name passes) ++ codes ".")

-- ` (${batchLabel})`, or nothing without a label
batch_prefix : Option Text → Text
batch_prefix none = []
batch_prefix (some []) = []
batch_prefix (some (c ∷ s)) = codes " (" ++ ((c ∷ s) ++ codes ")")

-- `buildSubject(passes, batchLabel)`
pub build_subject : List HallPass → Option Text → Text
build_subject (p ∷ []) label =
    codes "Your Hall Pass - " ++ (format_ticket_number p.ticket_number ++ batch_prefix label)
build_subject passes label =
    codes "Hall Pass Tickets"
    ++ (batch_prefix label
        ++ (codes " - " ++ (to_string (length passes) ++ codes " PDF Attachments")))

abbrev default_intro : Text
default_intro = codes "Please find the attached hall pass ticket PDF."

ticket_line : HallPass → Text
ticket_line p =
    format_ticket_number p.ticket_number
    ++ (codes " - " ++ (format_guest_name p ++ (codes " - " ++ p.token)))

-- `buildPlainMessage(message, passes)`
pub build_plain_message : Text → List HallPass → Text
build_plain_message message passes =
    or_text (trim message) default_intro
    ++ (10
        ∷ 10
        ∷ (build_guest_name_lines passes
            ++ (10
                ∷ 10
                ∷ (codes "Attached tickets:" ++ (10 ∷ join (10 ∷ []) (map ticket_line passes))))))

list_item : HallPass → Text
list_item p =
    codes "<li><strong>"
    ++ (escape_html (format_ticket_number p.ticket_number)
        ++ (codes "</strong> - "
            ++ (escape_html (format_guest_name p)
                ++ (codes " - <code>" ++ (escape_html p.token ++ codes "</code></li>")))))

-- `buildHtmlMessage(message, passes)`
pub build_html_message : Text → List HallPass → Text
build_html_message message passes =
    codes "<p>"
    ++ (replace_all 10 (codes "<br />") (escape_html (or_text (trim message) default_intro))
        ++ (codes "</p><p>"
            ++ (escape_html (build_guest_name_lines passes)
                ++ (codes "</p><p>Attached tickets:</p><ul>"
                    ++ (join [] (map list_item passes) ++ codes "</ul>")))))
