-- ===== src/Users.antt =====
-- service/user/UserService.java, UserValidationService.java, DeviceService.java and
-- ExternalProviderService.java, an area to each module.
pub mod Validation
pub mod Registration
pub mod Tokens
pub mod Logins
pub mod Following
pub mod Profiles
pub mod Images
pub mod Devices
pub mod Providers
pub mod Invariant
pub mod Commands
mod Tests
