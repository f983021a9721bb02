-- ===== src/Storage/Service.antt =====
-- The requests that internal/storage/s3.go sends, and the `s3API` interface of the service.
use deb_s3_go.Base.{ℕ, Bool, List, Option, Bytes, Error, Result}
use deb_s3_go.Base.Assoc.{Assoc}

-- An error of the service: one with a code of the API, or another.
pub data Failure : Type 0 where
  api : Bytes → Failure
  other : Error → Failure

pub data Answer (A : Type 0) : Type 0 where
  done : A → Answer A
  failed : Failure → Answer A

-- The inputs, with the fields that the code sets; a field that is not set is `none`.
pub record PutObjectInput : Type 0 where
  pub bucket : Bytes
  pub key : Bytes
  pub body : Bytes
  pub content_length : ℕ
  pub metadata : Assoc Bytes
  pub acl : Option Bytes
  pub content_type : Option Bytes
  pub cache_control : Option Bytes
  pub server_side_encryption : Bool
  pub if_none_match : Option Bytes

pub record DeleteObjectInput : Type 0 where
  pub bucket : Bytes
  pub key : Bytes
  pub if_match : Option Bytes

pub record CopyObjectInput : Type 0 where
  pub bucket : Bytes
  pub key : Bytes
  pub copy_source : Bytes
  pub acl : Option Bytes
  pub server_side_encryption : Bool
  pub copy_source_if_match : Option Bytes
  pub if_none_match : Option Bytes

pub record ListObjectsInput : Type 0 where
  pub bucket : Bytes
  pub prefix : Bytes
  pub continuation_token : Option Bytes

-- The outputs, with the fields that the code reads.
pub record HeadObjectOutput : Type 0 where
  pub content_length : Option ℕ
  pub etag : Option Bytes
  pub metadata : Assoc Bytes
  pub content_type : Option Bytes
  pub cache_control : Option Bytes
  pub server_side_encryption : Bool
  pub last_modified : Option ℕ

pub record ListedObject : Type 0 where
  pub key : Option Bytes
  pub size : Option ℕ
  pub etag : Option Bytes
  pub last_modified : Option ℕ

pub record ListObjectsOutput : Type 0 where
  pub contents : List ListedObject
  pub is_truncated : Option Bool
  pub next_continuation_token : Option Bytes

-- `s3API` over the state `W` of the service. Reads are taken to leave the state as it is; reading the
-- body of an answer may fail later.
pub record Client (W : Type 0) : Type 0 where
  pub get_object : Bytes → Bytes → W → Answer (Result Bytes)
  pub head_object : Bytes → Bytes → W → Answer HeadObjectOutput
  pub put_object : PutObjectInput → W → Answer (Unit {0}) × W
  pub delete_object : DeleteObjectInput → W → Answer (Unit {0}) × W
  pub copy_object : CopyObjectInput → W → Answer (Unit {0}) × W
  pub list_objects : ListObjectsInput → W → Answer ListObjectsOutput
