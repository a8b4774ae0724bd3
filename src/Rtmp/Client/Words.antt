-- ===== src/Rtmp/Client/Words.antt =====
-- crates/rtmp/src/session/client.rs: the words and numbers of the commands, as UTF-8 and as the eight
-- bytes of an f64. Those of the server's commands are in Server/Words.antt.
use stream_delay.Base.{[], ◌∷◌}
use stream_delay.Flv.{Bytes}

-- `type`.
abbrev pub type_name : Bytes
type_name = 0x74 ∷ 0x79 ∷ 0x70 ∷ 0x65 ∷ []

-- `nonprivate`.
abbrev pub nonprivate : Bytes
nonprivate = 0x6e ∷ 0x6f ∷ 0x6e ∷ 0x70 ∷ 0x72 ∷ 0x69 ∷ 0x76 ∷ 0x61 ∷ 0x74 ∷ 0x65 ∷ []

-- `flashVer`.
abbrev pub flash_ver_name : Bytes
flash_ver_name = 0x66 ∷ 0x6c ∷ 0x61 ∷ 0x73 ∷ 0x68 ∷ 0x56 ∷ 0x65 ∷ 0x72 ∷ []

-- `swfUrl`.
abbrev pub swf_url_name : Bytes
swf_url_name = 0x73 ∷ 0x77 ∷ 0x66 ∷ 0x55 ∷ 0x72 ∷ 0x6c ∷ []

-- `close`.
abbrev pub close_name : Bytes
close_name = 0x63 ∷ 0x6c ∷ 0x6f ∷ 0x73 ∷ 0x65 ∷ []

-- `_error`.
abbrev pub error_reply : Bytes
error_reply = 0x5f ∷ 0x65 ∷ 0x72 ∷ 0x72 ∷ 0x6f ∷ 0x72 ∷ []

-- `live`.
abbrev pub live_name : Bytes
live_name = 0x6c ∷ 0x69 ∷ 0x76 ∷ 0x65 ∷ []

-- `NetConnection.Error`.
abbrev pub connection_error : Bytes
connection_error =
    0x4e ∷ 0x65 ∷ 0x74 ∷ 0x43 ∷ 0x6f ∷ 0x6e ∷ 0x6e ∷ 0x65 ∷ 0x63 ∷ 0x74 ∷ 0x69 ∷ 0x6f ∷ 0x6e ∷ 0x2e
    ∷ 0x45 ∷ 0x72 ∷ 0x72 ∷ 0x6f ∷ 0x72 ∷ []

-- `NetConnection.Close`.
abbrev pub connection_close : Bytes
connection_close =
    0x4e ∷ 0x65 ∷ 0x74 ∷ 0x43 ∷ 0x6f ∷ 0x6e ∷ 0x6e ∷ 0x65 ∷ 0x63 ∷ 0x74 ∷ 0x69 ∷ 0x6f ∷ 0x6e ∷ 0x2e
    ∷ 0x43 ∷ 0x6c ∷ 0x6f ∷ 0x73 ∷ 0x65 ∷ []

-- `server closed the connection`.
abbrev pub server_closed : Bytes
server_closed =
    0x73 ∷ 0x65 ∷ 0x72 ∷ 0x76 ∷ 0x65 ∷ 0x72 ∷ 0x20 ∷ 0x63 ∷ 0x6c ∷ 0x6f ∷ 0x73 ∷ 0x65 ∷ 0x64 ∷ 0x20
    ∷ 0x74 ∷ 0x68 ∷ 0x65 ∷ 0x20 ∷ 0x63 ∷ 0x6f ∷ 0x6e ∷ 0x6e ∷ 0x65 ∷ 0x63 ∷ 0x74 ∷ 0x69 ∷ 0x6f
    ∷ 0x6e ∷ []

-- `FMLE/3.0 (compatible; FMSc/1.0)`.
abbrev pub default_flash_ver : Bytes
default_flash_ver =
    0x46 ∷ 0x4d ∷ 0x4c ∷ 0x45 ∷ 0x2f ∷ 0x33 ∷ 0x2e ∷ 0x30 ∷ 0x20 ∷ 0x28 ∷ 0x63 ∷ 0x6f ∷ 0x6d ∷ 0x70
    ∷ 0x61 ∷ 0x74 ∷ 0x69 ∷ 0x62 ∷ 0x6c ∷ 0x65 ∷ 0x3b ∷ 0x20 ∷ 0x46 ∷ 0x4d ∷ 0x53 ∷ 0x63 ∷ 0x2f
    ∷ 0x31 ∷ 0x2e ∷ 0x30 ∷ 0x29 ∷ []

-- `TX_CONNECT`.
abbrev pub tx_connect : Bytes
tx_connect = 0x3f ∷ 0xf0 ∷ 0x00 ∷ 0x00 ∷ 0x00 ∷ 0x00 ∷ 0x00 ∷ 0x00 ∷ []

-- `TX_RELEASE`.
abbrev pub tx_release : Bytes
tx_release = 0x40 ∷ 0x00 ∷ 0x00 ∷ 0x00 ∷ 0x00 ∷ 0x00 ∷ 0x00 ∷ 0x00 ∷ []

-- `TX_FCPUBLISH`.
abbrev pub tx_fc_publish : Bytes
tx_fc_publish = 0x40 ∷ 0x08 ∷ 0x00 ∷ 0x00 ∷ 0x00 ∷ 0x00 ∷ 0x00 ∷ 0x00 ∷ []

-- `TX_CREATE`.
abbrev pub tx_create : Bytes
tx_create = 0x40 ∷ 0x10 ∷ 0x00 ∷ 0x00 ∷ 0x00 ∷ 0x00 ∷ 0x00 ∷ 0x00 ∷ []

-- `TX_PUBLISH`.
abbrev pub tx_publish : Bytes
tx_publish = 0x40 ∷ 0x14 ∷ 0x00 ∷ 0x00 ∷ 0x00 ∷ 0x00 ∷ 0x00 ∷ 0x00 ∷ []

-- `6.0`.
abbrev pub tx_fc_unpublish : Bytes
tx_fc_unpublish = 0x40 ∷ 0x18 ∷ 0x00 ∷ 0x00 ∷ 0x00 ∷ 0x00 ∷ 0x00 ∷ 0x00 ∷ []

-- `7.0`.
abbrev pub tx_delete : Bytes
tx_delete = 0x40 ∷ 0x1c ∷ 0x00 ∷ 0x00 ∷ 0x00 ∷ 0x00 ∷ 0x00 ∷ 0x00 ∷ []
