-- ===== src/Server/Writing.antt =====
-- `write_json` of src/main.rs: the bytes that go to the stream, for the JSON text of the payload.
pub mod Health
use baijimu_codex_connector.Prelude.{String, [], codes, if◌then◌else◌, length, nat_eq, ℕ, ◌++◌, ◌∷◌}
use baijimu_codex_connector.Invoke.Input.{decimal}
use baijimu_codex_connector.Text.{Chars}

unfoldable pub reason : ℕ → String
reason status =
    if nat_eq status 200
    then "OK"
    else if nat_eq status 400
    then "Bad Request"
    else if nat_eq status 401
    then "Unauthorized"
    else if nat_eq status 403
    then "Forbidden"
    else if nat_eq status 404
    then "Not Found"
    else if nat_eq status 409
    then "Conflict"
    else if nat_eq status 410
    then "Gone"
    else if nat_eq status 503
    then "Service Unavailable"
    else if nat_eq status 500
    then "Internal Server Error"
    else "OK"

abbrev pub line_end : Chars
line_end = b'\r' ∷ b'\n' ∷ []

-- The status line and the headers, up to the blank line.
unfoldable pub response_head : ℕ → ℕ → Chars
unfolding reason
response_head status size =
    codes "HTTP/1.1 "
    ++ (codes (decimal status)
        ++ (codes " "
            ++ (codes (reason status)
                ++ (line_end
                    ++ (codes "Content-Type: application/json; charset=utf-8"
                        ++ (line_end
                            ++ (codes "Content-Length: "
                                ++ (codes (decimal size)
                                    ++ (line_end ++ codes "Connection: close")))))))))

unfoldable pub write_json : ℕ → Chars → Chars
unfolding response_head
write_json status body = response_head status (length body) ++ (line_end ++ (line_end ++ body))
