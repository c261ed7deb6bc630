-- ===== src/Errors.antt =====
-- src/shared/errors.ts: the error that each part of the program returns. The codes and the fields
-- that a caller reads are kept; the message texts are not.
use open_thinking.Base.{String, Option}

pub data PolicyCode : Type 0 where
  read_denied write_denied rate_exceeded cost_exceeded : PolicyCode

pub record PolicyError : Type 0 where
  pub code : PolicyCode
  pub stage_name : Option String

pub data ProviderCode : Type 0 where
  auth_error rate_limit timeout api_error not_found : ProviderCode

pub record ProviderError : Type 0 where
  pub code : ProviderCode

pub data PipelineCode : Type 0 where
  parse_error validation_error execution_error : PipelineCode

pub record PipelineError : Type 0 where
  pub code : PipelineCode

pub data ContextCode : Type 0 where
  not_found write_error read_error expired : ContextCode

pub record ContextError : Type 0 where
  pub code : ContextCode
  pub key : Option String
