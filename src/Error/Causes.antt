-- ===== src/Error/Causes.antt =====
-- The error types of the modules of src/, with their `Display` and `description` texts.
use rust_czmq.Prelude.{◌++◌}
use rust_czmq.Rust.Text.{Bytes, ascii}

pub data ZActorError : Type 0 where
  instantiate cmd_failed : ZActorError

pub data ZAuthError : Type 0 where
  instantiate : ZAuthError

-- The errors of other libraries, each with the input that was refused: std's `NulError` and
-- `Utf8Error`, and zmq's `DecodeError`.
pub data Foreign : Type 0 where
  nul_error utf8_error decode_error : Bytes → Foreign

-- `invalid_cert` and `save_path` hold a path.
pub data ZCertError : Type 0 where
  instantiate : ZCertError
  invalid_cert : Bytes → ZCertError
  invalid_meta_encoded : ZCertError
  save_path : Bytes → ZCertError
  zmq_decode : Foreign → ZCertError

pub data ZCertStoreError : Type 0 where
  instantiate : ZCertStoreError

pub data ZFrameError : Type 0 where
  instantiate cmd_failed : ZFrameError

pub data ZHashXError : Type 0 where
  cmd_failed : ZHashXError

pub data ZMonitorError : Type 0 where
  instantiate missing_attr : ZMonitorError

pub data ZMsgError : Type 0 where
  cmd_failed : ZMsgError

pub data ZPollerError : Type 0 where
  cmd_failed instantiate : ZPollerError

pub data ZSockError : Type 0 where
  create_sock cmd_failed : ZSockError

pub data ZSysError : Type 0 where
  create_pipe : ZSysError

-- What `Box<error::Error>` can hold.
pub data Cause : Type 0 where
  zactor : ZActorError → Cause
  zauth : ZAuthError → Cause
  zcert : ZCertError → Cause
  zcertstore : ZCertStoreError → Cause
  zframe : ZFrameError → Cause
  zhashx : ZHashXError → Cause
  zmonitor : ZMonitorError → Cause
  zmsg : ZMsgError → Cause
  zpoller : ZPollerError → Cause
  zsock : ZSockError → Cause
  zsys : ZSysError → Cause
  foreign : Foreign → Cause

zactor_text : ZActorError → Bytes
zactor_text ZActorError.instantiate = ascii "Could not instantiate new ZActor struct"
zactor_text ZActorError.cmd_failed = ascii "ZActor command failed"

zauth_text : ZAuthError → Bytes
zauth_text ZAuthError.instantiate = ascii "Could not instantiate new ZAuth struct"

zcertstore_text : ZCertStoreError → Bytes
zcertstore_text ZCertStoreError.instantiate = ascii "Could not instantiate new ZCertStore struct"

zframe_text : ZFrameError → Bytes
zframe_text ZFrameError.instantiate = ascii "Could not instantiate new ZFrame struct"
zframe_text ZFrameError.cmd_failed = ascii "ZFrame command failed"

zhashx_text : ZHashXError → Bytes
zhashx_text ZHashXError.cmd_failed = ascii "ZHashX command failed"

zmonitor_text : ZMonitorError → Bytes
zmonitor_text ZMonitorError.instantiate = ascii "Could not instantiate new ZMonitor struct"
zmonitor_text ZMonitorError.missing_attr = ascii "ZMonitor didn't reply with attribute"

zmsg_text : ZMsgError → Bytes
zmsg_text ZMsgError.cmd_failed = ascii "ZMsg command failed"

zpoller_text : ZPollerError → Bytes
zpoller_text ZPollerError.cmd_failed = ascii "ZPoller command failed"
zpoller_text ZPollerError.instantiate = ascii "Could not instantiate new ZPoller struct"

zsock_text : ZSockError → Bytes
zsock_text ZSockError.create_sock = ascii "Could not create socket"
zsock_text ZSockError.cmd_failed = ascii "Socket command failed"

-- `description` of `impl error::Error for ZCertError`; those of the other types are their texts.
zcert_description : ZCertError → Bytes
zcert_description ZCertError.instantiate = ascii "Could not instantiate new ZCert struct"
zcert_description (ZCertError.invalid_cert _) = ascii "Certificate was invalid or non-existent"
zcert_description ZCertError.invalid_meta_encoded = ascii "Encoded metadata is invalid"
zcert_description (ZCertError.save_path _) = ascii "Could not save certificate file to given path"
zcert_description (ZCertError.zmq_decode _) = ascii "Could not decode Z85 string"

zsys_text : ZSysError → Bytes
zsys_text ZSysError.create_pipe = ascii "Could not create pipe"

-- `render` is the text of another library's error.
module _ (render : Foreign → Bytes) where
  zcert_text : ZCertError → Bytes
  zcert_text ZCertError.instantiate = ascii "Could not instantiate new ZCert struct"
  zcert_text (ZCertError.invalid_cert e) = ascii "Could not open certificate at path: " ++ e
  zcert_text ZCertError.invalid_meta_encoded = ascii "Encoded metadata is invalid"
  zcert_text (ZCertError.save_path e) = ascii "Could not save certificate file to path: " ++ e
  zcert_text (ZCertError.zmq_decode e) = ascii "Could not decode Z85 string: " ++ render e

  -- `Display` of the boxed error.
  pub cause_text : Cause → Bytes
  unfolding zactor_text zauth_text zcert_text zcertstore_text zframe_text zhashx_text zmonitor_text
      zmsg_text zpoller_text zsock_text zsys_text
  cause_text (zactor e) = zactor_text e
  cause_text (zauth e) = zauth_text e
  cause_text (zcert e) = zcert_text e
  cause_text (zcertstore e) = zcertstore_text e
  cause_text (zframe e) = zframe_text e
  cause_text (zhashx e) = zhashx_text e
  cause_text (zmonitor e) = zmonitor_text e
  cause_text (zmsg e) = zmsg_text e
  cause_text (zpoller e) = zpoller_text e
  cause_text (zsock e) = zsock_text e
  cause_text (zsys e) = zsys_text e
  cause_text (foreign e) = render e
