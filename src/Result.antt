-- ===== src/Result.antt =====
-- prod/libsrc/cplat/base/result.c and the result codes of prod/include/cplat/base/result.h.

-- The values of errno that `cplat_internal_result_from_errno` tells apart.
pub data Errno : Type 0 where
  einval enoent eacces eperm etimedout ebusy eagain enomem enametoolong erange : Errno
  other_errno : Errno

-- The codes `CPLAT_OK` and `CPLAT_ERR_…`.
pub data ResultCode : Type 0 where
  ok_code unknown invalid_argument not_found permission_denied timeout busy : ResultCode
  out_of_memory buffer_too_small corrupt_descriptor : ResultCode

-- `cplat_internal_result_from_errno`.
unfoldable pub result_from_errno : Errno → ResultCode
result_from_errno einval = invalid_argument
result_from_errno enoent = not_found
result_from_errno eacces = permission_denied
result_from_errno eperm = permission_denied
result_from_errno etimedout = timeout
result_from_errno ebusy = busy
result_from_errno eagain = busy
result_from_errno enomem = out_of_memory
result_from_errno enametoolong = buffer_too_small
result_from_errno erange = buffer_too_small
result_from_errno other_errno = unknown
