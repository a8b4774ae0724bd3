-- ===== src/Rtmp/Server/Words.antt =====
-- crates/rtmp/src/session/server.rs: the words and numbers of the commands, as UTF-8 and as the eight
-- bytes of an f64.
use stream_delay.Base.{[], ◌∷◌}
use stream_delay.Flv.{Bytes}

-- `connect`.
abbrev pub connect_name : Bytes
connect_name = 0x63 ∷ 0x6f ∷ 0x6e ∷ 0x6e ∷ 0x65 ∷ 0x63 ∷ 0x74 ∷ []

-- `releaseStream`.
abbrev pub release_stream_name : Bytes
release_stream_name =
    0x72 ∷ 0x65 ∷ 0x6c ∷ 0x65 ∷ 0x61 ∷ 0x73 ∷ 0x65 ∷ 0x53 ∷ 0x74 ∷ 0x72 ∷ 0x65 ∷ 0x61 ∷ 0x6d ∷ []

-- `FCPublish`.
abbrev pub fc_publish_name : Bytes
fc_publish_name = 0x46 ∷ 0x43 ∷ 0x50 ∷ 0x75 ∷ 0x62 ∷ 0x6c ∷ 0x69 ∷ 0x73 ∷ 0x68 ∷ []

-- `createStream`.
abbrev pub create_stream_name : Bytes
create_stream_name =
    0x63 ∷ 0x72 ∷ 0x65 ∷ 0x61 ∷ 0x74 ∷ 0x65 ∷ 0x53 ∷ 0x74 ∷ 0x72 ∷ 0x65 ∷ 0x61 ∷ 0x6d ∷ []

-- `publish`.
abbrev pub publish_name : Bytes
publish_name = 0x70 ∷ 0x75 ∷ 0x62 ∷ 0x6c ∷ 0x69 ∷ 0x73 ∷ 0x68 ∷ []

-- `FCUnpublish`.
abbrev pub fc_unpublish_name : Bytes
fc_unpublish_name = 0x46 ∷ 0x43 ∷ 0x55 ∷ 0x6e ∷ 0x70 ∷ 0x75 ∷ 0x62 ∷ 0x6c ∷ 0x69 ∷ 0x73 ∷ 0x68 ∷ []

-- `deleteStream`.
abbrev pub delete_stream_name : Bytes
delete_stream_name =
    0x64 ∷ 0x65 ∷ 0x6c ∷ 0x65 ∷ 0x74 ∷ 0x65 ∷ 0x53 ∷ 0x74 ∷ 0x72 ∷ 0x65 ∷ 0x61 ∷ 0x6d ∷ []

-- `closeStream`.
abbrev pub close_stream_name : Bytes
close_stream_name = 0x63 ∷ 0x6c ∷ 0x6f ∷ 0x73 ∷ 0x65 ∷ 0x53 ∷ 0x74 ∷ 0x72 ∷ 0x65 ∷ 0x61 ∷ 0x6d ∷ []

-- `app`.
abbrev pub app_name : Bytes
app_name = 0x61 ∷ 0x70 ∷ 0x70 ∷ []

-- `tcUrl`.
abbrev pub tc_url_name : Bytes
tc_url_name = 0x74 ∷ 0x63 ∷ 0x55 ∷ 0x72 ∷ 0x6c ∷ []

-- `objectEncoding`.
abbrev pub object_encoding_name : Bytes
object_encoding_name =
    0x6f ∷ 0x62 ∷ 0x6a ∷ 0x65 ∷ 0x63 ∷ 0x74 ∷ 0x45 ∷ 0x6e ∷ 0x63 ∷ 0x6f ∷ 0x64 ∷ 0x69 ∷ 0x6e ∷ 0x67
    ∷ []

-- `onMetaData`.
abbrev pub on_meta_data : Bytes
on_meta_data = 0x6f ∷ 0x6e ∷ 0x4d ∷ 0x65 ∷ 0x74 ∷ 0x61 ∷ 0x44 ∷ 0x61 ∷ 0x74 ∷ 0x61 ∷ []

-- `_result`.
abbrev pub result_name : Bytes
result_name = 0x5f ∷ 0x72 ∷ 0x65 ∷ 0x73 ∷ 0x75 ∷ 0x6c ∷ 0x74 ∷ []

-- `onStatus`.
abbrev pub on_status : Bytes
on_status = 0x6f ∷ 0x6e ∷ 0x53 ∷ 0x74 ∷ 0x61 ∷ 0x74 ∷ 0x75 ∷ 0x73 ∷ []

-- `onFCPublish`.
abbrev pub on_fc_publish : Bytes
on_fc_publish = 0x6f ∷ 0x6e ∷ 0x46 ∷ 0x43 ∷ 0x50 ∷ 0x75 ∷ 0x62 ∷ 0x6c ∷ 0x69 ∷ 0x73 ∷ 0x68 ∷ []

-- `level`.
abbrev pub level_name : Bytes
level_name = 0x6c ∷ 0x65 ∷ 0x76 ∷ 0x65 ∷ 0x6c ∷ []

-- `code`.
abbrev pub code_name : Bytes
code_name = 0x63 ∷ 0x6f ∷ 0x64 ∷ 0x65 ∷ []

-- `description`.
abbrev pub description_name : Bytes
description_name = 0x64 ∷ 0x65 ∷ 0x73 ∷ 0x63 ∷ 0x72 ∷ 0x69 ∷ 0x70 ∷ 0x74 ∷ 0x69 ∷ 0x6f ∷ 0x6e ∷ []

-- `status`.
abbrev pub status_name : Bytes
status_name = 0x73 ∷ 0x74 ∷ 0x61 ∷ 0x74 ∷ 0x75 ∷ 0x73 ∷ []

-- `error`.
abbrev pub error_name : Bytes
error_name = 0x65 ∷ 0x72 ∷ 0x72 ∷ 0x6f ∷ 0x72 ∷ []

-- `fmsVer`.
abbrev pub fms_ver : Bytes
fms_ver = 0x66 ∷ 0x6d ∷ 0x73 ∷ 0x56 ∷ 0x65 ∷ 0x72 ∷ []

-- `FMS/3,0,1,123`.
abbrev pub fms_version : Bytes
fms_version =
    0x46 ∷ 0x4d ∷ 0x53 ∷ 0x2f ∷ 0x33 ∷ 0x2c ∷ 0x30 ∷ 0x2c ∷ 0x31 ∷ 0x2c ∷ 0x31 ∷ 0x32 ∷ 0x33 ∷ []

-- `capabilities`.
abbrev pub capabilities_name : Bytes
capabilities_name =
    0x63 ∷ 0x61 ∷ 0x70 ∷ 0x61 ∷ 0x62 ∷ 0x69 ∷ 0x6c ∷ 0x69 ∷ 0x74 ∷ 0x69 ∷ 0x65 ∷ 0x73 ∷ []

-- `NetConnection.Connect.Success`.
abbrev pub connect_success : Bytes
connect_success =
    0x4e ∷ 0x65 ∷ 0x74 ∷ 0x43 ∷ 0x6f ∷ 0x6e ∷ 0x6e ∷ 0x65 ∷ 0x63 ∷ 0x74 ∷ 0x69 ∷ 0x6f ∷ 0x6e ∷ 0x2e
    ∷ 0x43 ∷ 0x6f ∷ 0x6e ∷ 0x6e ∷ 0x65 ∷ 0x63 ∷ 0x74 ∷ 0x2e ∷ 0x53 ∷ 0x75 ∷ 0x63 ∷ 0x63 ∷ 0x65
    ∷ 0x73 ∷ 0x73 ∷ []

-- `Connection succeeded.`.
abbrev pub connect_succeeded : Bytes
connect_succeeded =
    0x43 ∷ 0x6f ∷ 0x6e ∷ 0x6e ∷ 0x65 ∷ 0x63 ∷ 0x74 ∷ 0x69 ∷ 0x6f ∷ 0x6e ∷ 0x20 ∷ 0x73 ∷ 0x75 ∷ 0x63
    ∷ 0x63 ∷ 0x65 ∷ 0x65 ∷ 0x64 ∷ 0x65 ∷ 0x64 ∷ 0x2e ∷ []

-- `NetStream.Publish.Start`.
abbrev pub publish_start : Bytes
publish_start =
    0x4e ∷ 0x65 ∷ 0x74 ∷ 0x53 ∷ 0x74 ∷ 0x72 ∷ 0x65 ∷ 0x61 ∷ 0x6d ∷ 0x2e ∷ 0x50 ∷ 0x75 ∷ 0x62 ∷ 0x6c
    ∷ 0x69 ∷ 0x73 ∷ 0x68 ∷ 0x2e ∷ 0x53 ∷ 0x74 ∷ 0x61 ∷ 0x72 ∷ 0x74 ∷ []

-- ` is now published.`.
abbrev pub now_published : Bytes
now_published =
    0x20 ∷ 0x69 ∷ 0x73 ∷ 0x20 ∷ 0x6e ∷ 0x6f ∷ 0x77 ∷ 0x20 ∷ 0x70 ∷ 0x75 ∷ 0x62 ∷ 0x6c ∷ 0x69 ∷ 0x73
    ∷ 0x68 ∷ 0x65 ∷ 0x64 ∷ 0x2e ∷ []

-- `0.0`.
abbrev pub zero_f64 : Bytes
zero_f64 = 0x00 ∷ 0x00 ∷ 0x00 ∷ 0x00 ∷ 0x00 ∷ 0x00 ∷ 0x00 ∷ 0x00 ∷ []

-- `STREAM_ID as f64`.
abbrev pub one_f64 : Bytes
one_f64 = 0x3f ∷ 0xf0 ∷ 0x00 ∷ 0x00 ∷ 0x00 ∷ 0x00 ∷ 0x00 ∷ 0x00 ∷ []

-- `31.0`.
abbrev pub capabilities_f64 : Bytes
capabilities_f64 = 0x40 ∷ 0x3f ∷ 0x00 ∷ 0x00 ∷ 0x00 ∷ 0x00 ∷ 0x00 ∷ 0x00 ∷ []
