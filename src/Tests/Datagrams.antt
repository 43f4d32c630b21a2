-- ===== src/Tests/Datagrams.antt =====
-- The simulator's UDP loop at concrete datagrams (server.go).
use gofins.Base.{ℕ, ◌≡◌, refl, List, [], ◌∷◌, ◌++◌, take, drop, replicate}
use gofins.Area
use gofins.Protocol.{encode_header, encode_response, not_supported}
use gofins.Server.EndToEnd.{reply}
use gofins.Server.Udp.{receive}
use gofins.Tests.Memory.{command}

abbrev fresh_buffer : List ℕ
fresh_buffer = replicate 64 0

-- An unknown command with 24 bytes of data.
abbrev secret : List ℕ
secret = encode_header command ++ (0x99 ∷ 0x99 ∷ replicate 24 0x41)

abbrev refusal : List ℕ
refusal = encode_response (reply command 0x9999 not_supported [])

leaked : take 2 (drop 20 (receive fresh_buffer secret)) ≡ 0x41 ∷ 0x41 ∷ []
unfolding encode_header
leaked = refl
