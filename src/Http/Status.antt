-- ===== src/Http/Status.antt =====
-- Status codes of package net/http and their texts.
use mitm_proxy.Base.{ℕ, List, [], ◌∷◌, ◌==◌, if◌then◌else◌, ◌≡◌, refl}
use mitm_proxy.Text.{Bytes, bytes}

abbrev pub status_ok : ℕ
status_ok = 200

abbrev pub status_bad_request : ℕ
status_bad_request = 400

abbrev pub status_method_not_allowed : ℕ
status_method_not_allowed = 405

abbrev pub status_no_content : ℕ
status_no_content = 204

abbrev pub status_not_found : ℕ
status_not_found = 404

abbrev pub status_bad_gateway : ℕ
status_bad_gateway = 502

abbrev pub status_switching_protocols : ℕ
status_switching_protocols = 101

texts : List (ℕ × Bytes)
unfolding bytes
texts =
    (100, bytes "Continue")
    ∷ (101, bytes "Switching Protocols")
    ∷ (102, bytes "Processing")
    ∷ (103, bytes "Early Hints")
    ∷ (200, bytes "OK")
    ∷ (201, bytes "Created")
    ∷ (202, bytes "Accepted")
    ∷ (203, bytes "Non-Authoritative Information")
    ∷ (204, bytes "No Content")
    ∷ (205, bytes "Reset Content")
    ∷ (206, bytes "Partial Content")
    ∷ (207, bytes "Multi-Status")
    ∷ (208, bytes "Already Reported")
    ∷ (226, bytes "IM Used")
    ∷ (300, bytes "Multiple Choices")
    ∷ (301, bytes "Moved Permanently")
    ∷ (302, bytes "Found")
    ∷ (303, bytes "See Other")
    ∷ (304, bytes "Not Modified")
    ∷ (305, bytes "Use Proxy")
    ∷ (307, bytes "Temporary Redirect")
    ∷ (308, bytes "Permanent Redirect")
    ∷ (400, bytes "Bad Request")
    ∷ (401, bytes "Unauthorized")
    ∷ (402, bytes "Payment Required")
    ∷ (403, bytes "Forbidden")
    ∷ (404, bytes "Not Found")
    ∷ (405, bytes "Method Not Allowed")
    ∷ (406, bytes "Not Acceptable")
    ∷ (407, bytes "Proxy Authentication Required")
    ∷ (408, bytes "Request Timeout")
    ∷ (409, bytes "Conflict")
    ∷ (410, bytes "Gone")
    ∷ (411, bytes "Length Required")
    ∷ (412, bytes "Precondition Failed")
    ∷ (413, bytes "Request Entity Too Large")
    ∷ (414, bytes "Request URI Too Long")
    ∷ (415, bytes "Unsupported Media Type")
    ∷ (416, bytes "Requested Range Not Satisfiable")
    ∷ (417, bytes "Expectation Failed")
    ∷ (418, bytes "I'm a teapot")
    ∷ (421, bytes "Misdirected Request")
    ∷ (422, bytes "Unprocessable Entity")
    ∷ (423, bytes "Locked")
    ∷ (424, bytes "Failed Dependency")
    ∷ (425, bytes "Too Early")
    ∷ (426, bytes "Upgrade Required")
    ∷ (428, bytes "Precondition Required")
    ∷ (429, bytes "Too Many Requests")
    ∷ (431, bytes "Request Header Fields Too Large")
    ∷ (451, bytes "Unavailable For Legal Reasons")
    ∷ (500, bytes "Internal Server Error")
    ∷ (501, bytes "Not Implemented")
    ∷ (502, bytes "Bad Gateway")
    ∷ (503, bytes "Service Unavailable")
    ∷ (504, bytes "Gateway Timeout")
    ∷ (505, bytes "HTTP Version Not Supported")
    ∷ (506, bytes "Variant Also Negotiates")
    ∷ (507, bytes "Insufficient Storage")
    ∷ (508, bytes "Loop Detected")
    ∷ (510, bytes "Not Extended")
    ∷ (511, bytes "Network Authentication Required")
    ∷ []

text_in : List (ℕ × Bytes) → ℕ → Bytes
text_in [] code = []
text_in ((c, t) ∷ rest) code = if c == code then t else text_in rest code

-- http.StatusText: empty for a code that the package does not know.
unfoldable pub status_text : ℕ → Bytes
unfolding text_in texts
status_text code = text_in texts code

gateway : status_text 502 ≡ bytes "Bad Gateway"
unfolding status_text bytes
gateway = refl
